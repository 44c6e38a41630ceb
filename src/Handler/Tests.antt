-- ===== src/Handler/Tests.antt =====
-- The theorems on routing (include/vosp/error.hpp, `detail::BasicHandler`) at concrete inputs.
use micro_error_framework.Prelude.{ℕ, ◌≡◌, refl, ◌⊎◌, some, List, [], ◌∷◌, arith, codes, All}
use micro_error_framework.Error.{Error, network, database, filesystem, err, OperationResult}
use micro_error_framework.Register.{Register}
use micro_error_framework.Register.Invariant.{IsValid}
use micro_error_framework.Handler.{adds, dispatch, missing_register}
use micro_error_framework.Handler.Routing.{Hit, delivered, dispatch-first}
use micro_error_framework.Handler.Registers.{register_methods, IsOwnReply, dispatch-answers}
use micro_error_framework.Handler.Commute.{dispatch_two, crossed, dispatch_comm}

abbrev network_register : Register
network_register = record { category = network; capacity_limit = 2; errors = [] }

abbrev database_register : Register
database_register = record { category = database; capacity_limit = 2; errors = [] }

abbrev registers : List Register
registers = network_register ∷ database_register ∷ []

abbrev references : List ℕ
references = 0 ∷ 1 ∷ []

abbrev deadlock : Error
deadlock = record { message = codes "Deadlock"; code = 5; category = database }

abbrev timeout : Error
timeout = record { message = codes "Timeout"; code = 1; category = network }

abbrev disk_full : Error
disk_full = record { message = codes "Disk full"; code = 9; category = filesystem }

deadlock-Hit : Hit register_methods registers database references
deadlock-Hit = record {
  before = 0 ∷ [];
  place = 1;
  after = [];
  register = database_register;
  split = refl;
  passed = ((network_register, refl, λ e. cc), tt);
  found = refl;
  matches = refl;
}

dispatch-first_example :
    dispatch register_methods registers references deadlock adds
    ≡ delivered register_methods registers 1 database_register deadlock adds
unfolding deadlock-Hit
dispatch-first_example =
    dispatch-first register_methods registers references deadlock adds deadlock-Hit

registers-IsValid : All IsValid registers
registers-IsValid = omega arith

dispatch-answers_example :
    (store' : List Register) × (result : OperationResult) × (dispatch register_methods registers
        references deadlock adds
      ≡ some (store', result))
    × All IsValid store'
    × (IsOwnReply database result ⊎ (result ≡ err (missing_register database)))
dispatch-answers_example =
    dispatch-answers registers references deadlock adds (omega arith) registers-IsValid

dispatch_comm_example :
    dispatch_two register_methods registers references deadlock adds timeout adds
    ≡ crossed register_methods
        (dispatch_two register_methods registers references timeout adds deadlock adds)
dispatch_comm_example =
    dispatch_comm register_methods registers references deadlock timeout adds adds (omega arith)
      (λ e. cc)
