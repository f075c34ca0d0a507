-- ===== src/Server/Resources.antt =====
-- The calls of server/src/server.c that take and give back what a connection holds: its socket, its
-- context, and the mutex in the context. A context is named by a number.
use iot_monitoring_system.Base.{
  ℕ, ◌+◌, ◌≡◌, List, [], ◌∷◌, ◌++◌, Bool, false, ◌==◌, if◌then◌else◌, ℤ, arith,
}
use iot_monitoring_system.Server.Operators.{fd_eq}

pub data Resource : Type 0 where
  opens_socket closes_socket : ℤ → Resource
  allocates_context frees_context : ℕ → Resource
  inits_mutex destroys_mutex : ℕ → Resource

abbrev pub opens : ℤ → Resource → Bool
opens fd (opens_socket g) = fd_eq g fd
opens fd _ = false

abbrev pub closes : ℤ → Resource → Bool
closes fd (closes_socket g) = fd_eq g fd
closes fd _ = false

abbrev pub allocates : ℕ → Resource → Bool
allocates m (allocates_context c) = c == m
allocates m _ = false

abbrev pub frees : ℕ → Resource → Bool
frees m (frees_context c) = c == m
frees m _ = false

abbrev pub inits : ℕ → Resource → Bool
inits m (inits_mutex c) = c == m
inits m _ = false

abbrev pub destroys : ℕ → Resource → Bool
destroys m (destroys_mutex c) = c == m
destroys m _ = false

-- How many of the calls pass a test.
abbrev pub count : (Resource → Bool) → List Resource → ℕ
count p [] = 0
count p (r ∷ rs) = (if p r then 1 else 0) + count p rs

pub count-append :
    (p : Resource → Bool) (xs ys : List Resource) → count p (xs ++ ys) ≡ count p xs + count p ys
count-append p [] ys = omega arith
count-append p (x ∷ xs) ys = omega (arith, count-append p xs ys)
