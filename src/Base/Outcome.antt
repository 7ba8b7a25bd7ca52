-- ===== src/Base/Outcome.antt =====
-- What a Go function that may fail does: it returns, returns an error, or panics. A loop that is
-- modelled on fuel may also be cut short, which is no behaviour of the program.
use Prim.Native.Nat.{ℕ, ◌≤◌, ◌-◌, ◌^◌}
use mathlib.Core.Path.{◌≡◌, refl}
use mathlib.Core.Logic.{◌⊎◌, inl, inr}
use mathlib.Core.Bool.{Bool, true, false, ◌&&◌}
use mathlib.Core.List.{List}
use mathlib.Core.Option.{Option, none, some}
use go_svn.Base.Tests.{leb, leb-true, if◌then◌else◌}
use go_svn.Base.Lists.{length, take, drop, get_elem?}

-- The sentinel errors that callers can tell apart; the texts of the messages are left out.
pub data Error : Type 0 where
  eof unexpected_eof varint_overflow : Error
  svndiff_invalid_header svndiff_corrupt_window svndiff_backward_view svndiff_invalid_ops : Error
  svndiff_unexpected_end svndiff_invalid_compressed_data : Error
  unsupported_version encoder_closed compression_failed : Error
  lz4_corrupt : Error
  fs_malformed_skel : Error
  mergeinfo_parse_error : Error
  bad_checksum_parse bad_checksum_kind checksum_mismatch : Error
  seek_failed read_failed : Error
  malformed_file incomplete_data : Error
  ra_svn_malformed : Error
  wc_not_locked wc_bad_adm_log : Error
  context_canceled database_failed : Error

pub data Outcome {ℓ} (A : Type ℓ) : Type ℓ where
  ok : A → Outcome A
  err : Error → Outcome A
  panic : Outcome A
  out_of_fuel : Outcome A

infixl 5 ◌>>=◌ ◌>>◌
abbrev pub ◌>>=◌ {ℓ κ} : {A : Type ℓ} {B : Type κ} → Outcome A → (A → Outcome B) → Outcome B
ok a >>= f = f a
err e >>= f = err e
panic >>= f = panic
out_of_fuel >>= f = out_of_fuel

abbrev pub ◌>>◌ {ℓ} : {B : Type ℓ} → Outcome (Unit {0}) → Outcome B → Outcome B
m >> k = m >>= λ _. k

-- `if !test { return error }`
abbrev pub guard : Bool → Error → Outcome (Unit {0})
guard true e = ok tt
guard false e = err e

-- The call ends: with a result or with an error.
abbrev pub Ends {ℓ} : {A : Type ℓ} → Outcome A → Type 0
Ends (ok a) = Unit
Ends (err e) = Unit
Ends panic = ⊥
Ends out_of_fuel = ⊥

-- Indexing, `s[i]`.
abbrev pub of_option {ℓ} : {A : Type ℓ} → Option A → Outcome A
of_option none = panic
of_option (some a) = ok a

unfoldable pub at {ℓ} : {A : Type ℓ} → List A → ℕ → Outcome A
at xs i = of_option (get_elem? xs i)

pub at_lem {ℓ} :
    {A : Type ℓ} (xs : List A) (i : ℕ) {a : A} → get_elem? xs i ≡ some a → at xs i ≡ ok a
unfolding at
at_lem xs i e = rw e

-- Slicing, `s[low:high]`. Go admits a bound up to the capacity; here it is the length, so what is
-- proved free of panics is free of them whatever the capacity.
unfoldable pub slice {ℓ} : {A : Type ℓ} → List A → ℕ → ℕ → Outcome (List A)
slice xs low high =
    if leb low high && leb high (length xs) then ok (take (high - low) (drop low xs)) else panic

pub slice_lem {ℓ} :
    {A : Type ℓ} (xs : List A) (low high : ℕ)
    → low ≤ high
    → high ≤ length xs
    → slice xs low high ≡ ok (take (high - low) (drop low xs))
unfolding slice
slice_lem xs low high p q = rw (leb-true _ _ p, leb-true _ _ q)

-- The most bytes that the runtime of Go makes a slice of, on a 64-bit machine whose addresses have 48
-- bits.
abbrev pub max_alloc : ℕ
max_alloc = 2 ^ 48

-- `make([]byte, 0, capacity)`: a capacity above the most is a panic. What follows when the memory of
-- the machine does not suffice is no behaviour of the program.
unfoldable pub make_slice : (capacity : ℕ) → Outcome (Unit {0})
make_slice capacity = if leb capacity max_alloc then ok tt else panic

pub make_slice_lem : (capacity : ℕ) → capacity ≤ max_alloc → make_slice capacity ≡ ok tt
unfolding make_slice
make_slice_lem capacity h = rw (leb-true _ _ h)

-- A chain that returns is a first call that returns, and a second one that returns from there.
pub >>=-eq-ok {ℓ κ} :
    {A : Type ℓ} {B : Type κ} (call : Outcome A) (next : A → Outcome B) {result : B}
    → (call >>= next) ≡ ok result
    → (value : A) × (call ≡ ok value) × (next value ≡ ok result)
>>=-eq-ok (ok value) next run = (value, refl, run)
>>=-eq-ok (err e) next run = cc
>>=-eq-ok panic next run = cc
>>=-eq-ok out_of_fuel next run = cc

-- The call returns, or fails with one particular error: a family with a rule for each way to build
-- a call, for `search`.
pub data FailsWith {ℓ} {A : Type ℓ} (e : Error) : Outcome A → Type ℓ where
  returns : (a : A) → FailsWith e (ok a)
  fails : FailsWith e (err e)

pub guard-FailsWith : (b : Bool) (e : Error) → FailsWith e (guard b e)
guard-FailsWith true e = returns tt
guard-FailsWith false e = fails

pub if-FailsWith {ℓ} :
    {A : Type ℓ} {e : Error} (b : Bool) (m n : Outcome A)
    → FailsWith e m
    → FailsWith e n
    → FailsWith e (if b then m else n)
if-FailsWith true m n p q = p
if-FailsWith false m n p q = q

pub >>=-FailsWith {ℓ κ} :
    {A : Type ℓ} {B : Type κ} {e : Error} (m : Outcome A) (f : A → Outcome B)
    → FailsWith e m
    → ((a : A) → FailsWith e (f a))
    → FailsWith e (m >>= f)
>>=-FailsWith _ f (returns a) q = q a
>>=-FailsWith _ f fails q = fails

pub ruleset fails_rules = (returns, fails, guard-FailsWith, if-FailsWith, >>=-FailsWith)

pub FailsWith-cases {ℓ} :
    {A : Type ℓ} {e : Error} {m : Outcome A} → FailsWith e m → ((a : A) × (m ≡ ok a)) ⊎ (m ≡ err e)
FailsWith-cases (returns a) = inl (a, refl)
FailsWith-cases fails = inr refl

-- Any error of a call is answered by another error.
abbrev pub wrap {ℓ} : {A : Type ℓ} → Error → Outcome A → Outcome A
wrap e (ok a) = ok a
wrap e (err e') = err e
wrap e panic = panic
wrap e out_of_fuel = out_of_fuel

pub wrap-FailsWith {ℓ} : {A : Type ℓ} {e : Error} (m : Outcome A) → Ends m → FailsWith e (wrap e m)
wrap-FailsWith (ok a) h = returns a
wrap-FailsWith (err e) h = fails
wrap-FailsWith panic h = absurd h
wrap-FailsWith out_of_fuel h = absurd h

pub wrap-eq-ok {ℓ} : {A : Type ℓ} (e : Error) (m : Outcome A) (a : A) → wrap e m ≡ ok a → m ≡ ok a
wrap-eq-ok e (ok a) b h = h
wrap-eq-ok e (err e') b h = cc
wrap-eq-ok e panic b h = cc
wrap-eq-ok e out_of_fuel b h = cc
