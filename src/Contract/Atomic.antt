-- ===== src/Contract/Atomic.antt =====
-- Calls that change nothing that is seen of the map unless they succeed: a rule for each step of a
-- `do` block.
use icsa_artifact.Base.{
  ◌≡◌, ◌≢◌, refl, ◌∙◌, Bool, true, false, Option, none, some, arith, Bool-cases, inl, inr,
  if◌then◌else◌,
}
use icsa_artifact.Base.Int.{ℤ, is_int32}
use icsa_artifact.Text.{Text}
use icsa_artifact.Contract.{
  Map, Outcome, ok, threw, undefined, M, ◌>>=◌, attempt, int, load_int, bind, catch_false, return,
  write, ◌>>◌, put,
}
use icsa_artifact.Contract.Number.{value, value-loaded}

-- `view name m` is what is seen under a name.
module _ {V : Type 0} (view : Text → Map → V) where
  -- Every name is seen the same in both maps.
  abbrev pub Same : Map → Map → Type 0
  Same m m' = (c : Text) → view c m' ≡ view c m

  -- An answer `false` or an exception came with the view of `m`.
  abbrev pub Unchanged : Map → Outcome Bool × Map → Type 0
  Unchanged m (ok true, m') = Unit
  Unchanged m (ok false, m') = Same m m'
  Unchanged m (threw, m') = Same m m'
  Unchanged m (undefined, m') = Unit

  -- A call that changes the view only if it answers `true`.
  pub data Atomic (c : M Bool) : Type 0 where
    atomic : ((m m' : Map) → Same m m' → Unchanged m (c m')) → Atomic c

  -- A call that does not change the view at all.
  pub data Quiet {A : Type 0} (c : M A) : Type 0 where
    quiet : ((m : Map) → Same m (c m).1) → Quiet c

  pub run-Atomic : {c : M Bool} → Atomic c → (m m' : Map) → Same m m' → Unchanged m (c m')
  run-Atomic (atomic h) = h

  pub Quiet-attempt : {A : Type 0} (o : Option A) → Quiet (attempt o)
  unfolding attempt
  Quiet-attempt none = quiet λ m c. refl
  Quiet-attempt (some a) = quiet λ m c. refl

  pub Quiet-int : (v : ℤ) → Quiet (int v)
  unfolding int
  Quiet-int v = elim (Bool-cases (is_int32 v)) [
    | inl fits ↦ quiet λ m c. rw fits
    | inr large ↦ quiet λ m c. rw large
  ]

  after_quiet :
      {A : Type 0} {f : A → M Bool}
      → ((a : A) → Atomic (f a))
      → (m : Map) (r : Outcome A × Map) → Same m r.1
      → Unchanged m (bind r f)
  after_quiet rest m (ok a, m') s = run-Atomic (rest a) m m' s
  after_quiet rest m (threw, m') s = s
  after_quiet rest m (undefined, m') s = tt

  pub Atomic-bind :
      {A : Type 0} {c : M A} {f : A → M Bool}
      → Quiet c
      → ((a : A) → Atomic (f a))
      → Atomic (c >>= f)
  unfolding ◌>>=◌
  Atomic-bind {c} (quiet q) rest = atomic λ m m' s. after_quiet rest m (c m') (λ k. q m' k ∙ s k)

  pub Quiet-return : {A : Type 0} (a : A) → Quiet (return a)
  unfolding return
  Quiet-return a = quiet λ m c. refl

  pub Quiet-branch :
      {A : Type 0} (b : Bool) {f g : M A} → Quiet f → Quiet g → Quiet (if b then f else g)
  Quiet-branch true hf hg = hf
  Quiet-branch false hf hg = hg

  bind_quietly :
      {A B : Type 0} {f : A → M B}
      → ((a : A) → Quiet (f a))
      → (m : Map) (r : Outcome A × Map) → Same m r.1
      → Same m (bind r f).1
  bind_quietly rest m (ok a, m') s = elim (rest a) [ quiet q ↦ λ c. q m' c ∙ s c ]
  bind_quietly rest m (threw, m') s = s
  bind_quietly rest m (undefined, m') s = s

  pub Quiet-bind :
      {A B : Type 0} {c : M A} {f : A → M B} → Quiet c → ((a : A) → Quiet (f a)) → Quiet (c >>= f)
  unfolding ◌>>=◌
  Quiet-bind {c} (quiet q) rest = quiet λ m. bind_quietly rest m (c m) (q m)

  pub Atomic-branch : (b : Bool) {f g : M Bool} → Atomic f → Atomic g → Atomic (if b then f else g)
  Atomic-branch true hf hg = hf
  Atomic-branch false hf hg = hg

  pub Atomic-return : (b : Bool) → Atomic (return b)
  unfolding return
  Atomic-return true = atomic λ m m' s. tt
  Atomic-return false = atomic λ m m' s. s

  -- A call that answers `true` unless it overflows.
  abbrev pub Fine : Outcome Bool → Type 0
  Fine (ok true) = Unit
  Fine (ok false) = ⊥
  Fine threw = ⊥
  Fine undefined = Unit

  pub data Sure (c : M Bool) : Type 0 where
    sure : ((m : Map) → Fine (c m).0) → Sure c

  pub Sure-return : Sure (return true)
  unfolding return
  Sure-return = sure λ m. tt

  pub Sure-write : (k v : Text) {c : M Bool} → Sure c → Sure (write k v >> c)
  unfolding write ◌>>=◌
  Sure-write k v (sure h) = sure λ m. h (put k v m)

  run-Sure : {c : M Bool} → Sure c → (m : Map) → Fine (c m).0
  run-Sure (sure h) = h

  pub Sure-int : (v : ℤ) {f : ℤ → M Bool} → ((w : ℤ) → Sure (f w)) → Sure (int v >>= f)
  unfolding int ◌>>=◌
  Sure-int v h = elim (Bool-cases (is_int32 v)) [
    | inl fits ↦ sure λ m. rw fits (run-Sure (h v) m)
    | inr large ↦ sure λ m. rw large tt
  ]

  Unchanged-of_Fine : (m : Map) (r : Outcome Bool × Map) → Fine r.0 → Unchanged m r
  Unchanged-of_Fine m (ok true, m') e = tt
  Unchanged-of_Fine m (ok false, m') e = absurd e
  Unchanged-of_Fine m (threw, m') e = absurd e
  Unchanged-of_Fine m (undefined, m') e = tt

  pub Atomic-Sure : {c : M Bool} → Sure c → Atomic c
  Atomic-Sure {c} (sure h) = atomic λ m m' s. Unchanged-of_Fine m (c m') (h m')

  -- With the exceptions caught, an answer `false` means that nothing changed.
  pub catch_false-Unchanged :
      (m : Map) (r : Outcome Bool × Map)
      → Unchanged m r
      → (catch_false r).0 ≡ ok false
      → Same m (catch_false r).1
  catch_false-Unchanged m (ok true, m') h e = cc
  catch_false-Unchanged m (ok false, m') h e = h
  catch_false-Unchanged m (threw, m') h e = h
  catch_false-Unchanged m (undefined, m') h e = cc

-- No exception leaves a handler that catches them all.
pub catch_false-ne-threw : (r : Outcome Bool × Map) → (catch_false r).0 ≢ threw
catch_false-ne-threw (ok b, m) = ground arith
catch_false-ne-threw (threw, m) = ground arith
catch_false-ne-threw (undefined, m) = ground arith

pub Quiet-load :
    (get_value : Text → Text) (k : Text) → Quiet (value get_value) (load_int get_value k)
Quiet-load get_value k = quiet λ m c. value-loaded get_value k c m
