-- ===== src/Error/Tests.antt =====
-- Runs of include/vosp/error.hpp, and the theorems at concrete inputs.
use micro_error_framework.Prelude.{ℕ, ◌≡◌, refl, false, none, some, [], codes, length}
use micro_error_framework.Error.{
  Error, network, no_category, unnamed, to_string, returned, threw_exception, threw_unknown,
  attempt, err, error_hash, has_category, make, make_error, formatter_parse, formatter_format,
  underlying,
}
use micro_error_framework.Error.Print.{to_string-injective}

abbrev timeout : Error
timeout = record { message = codes "Timeout"; code = 1042; category = network }

abbrev bare : Error
bare = record { message = []; code = 0; category = no_category }

to_string-timeout : to_string timeout ≡ codes "[NETWORK:1042] Timeout"
unfolding to_string
to_string-timeout = refl

formatter_format-timeout : formatter_format timeout [] ≡ to_string timeout
unfolding formatter_format to_string
formatter_format-timeout = refl

to_string-unnamed : to_string (record bare { category = unnamed 7 }) ≡ codes "[UNKNOWN:0] "
unfolding to_string
to_string-unnamed = refl

formatter_parse-accepts : formatter_parse (codes "}") ≡ returned (codes "}")
unfolding formatter_parse
formatter_parse-accepts = refl

attempt-joins :
    attempt {A = ℕ} timeout (threw_exception (some (codes "socket closed")))
    ≡ err (record timeout { message = codes "Timeout: socket closed" })
unfolding attempt
attempt-joins = refl

attempt-null : attempt {A = ℕ} timeout (threw_exception none) ≡ err timeout
unfolding attempt
attempt-null = refl

make-out_of_memory :
    make network 3 threw_unknown ≡ record { message = []; code = 3; category = network }
unfolding make
make-out_of_memory = refl

no_category-bare : has_category (make_error 0 []) ≡ false
unfolding has_category make_error
no_category-bare = refl

underlying-no_category : underlying no_category ≡ 65535
unfolding underlying
underlying-no_category = refl

hash-bare : error_hash (λ c. c) length (λ c. c) bare ≡ 2654373447
unfolding error_hash
hash-bare = refl

to_string-injective_example : timeout ≡ record timeout { code = 1042 }
unfolding to_string
to_string-injective_example =
    to_string-injective timeout (record timeout { code = 1042 }) tt tt refl
