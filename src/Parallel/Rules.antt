-- ===== src/Parallel/Rules.antt =====
-- A rule for each step of a call: what it means without another thread in between, and which
-- addresses it needs.
use icsa_artifact.Base.{
  ◌≡◌, refl, sym, ◌∙◌, ap, subst, Bool, true, false, Option, none, some, [], arith, Bool-cases, inl,
  inr, if◌then◌else◌,
}
use icsa_artifact.Base.Int.{ℤ, is_int32, IsInt32}
use icsa_artifact.Text.{Text, text_eq, text_eq_sound}
use icsa_artifact.Text.Decimal.{to_string}
use icsa_artifact.Contract.{
  Map, Outcome, ok, threw, undefined, M, ◌>>=◌, bind, attempt, int, return, write, load_int,
  catch_false,
}
use icsa_artifact.Contract.Number.{value, value-put, value-loaded}
use icsa_artifact.Dag.{TransactionStruct}
use icsa_artifact.Dag.Conflict.{Has}
use icsa_artifact.Parallel.{Call, ended, access, run, resume, perform, require, require_int, caught}
use icsa_artifact.Parallel.Footprint.{Within, Touches}

-- A call does what the computation does, if no other thread comes in between.
pub data Means (p : Call) (c : M Bool) : Type 0 where
  means : ((m : Map) → run p m ≡ c m) → Means p c

pub run-Means : {p : Call} {c : M Bool} → Means p c → (m : Map) → run p m ≡ c m
run-Means (means h) = h

resume_lem :
    {A : Type 0} (rest : A → Call) (f : A → M Bool)
    → ((a : A) → Means (rest a) (f a))
    → (r : Outcome A × Map) → run (resume r.0 rest) r.1 ≡ bind r f
resume_lem rest f h (ok a, m) = run-Means (h a) m
resume_lem rest f h (threw, m) = refl
resume_lem rest f h (undefined, m) = refl

pub Means-perform :
    {A : Type 0} (c : M A) {rest : A → Call} {f : A → M Bool}
    → ((a : A) → Means (rest a) (f a))
    → Means (perform c rest) (c >>= f)
unfolding ◌>>=◌
Means-perform c {rest} {f} h = means λ m. resume_lem rest f h (c m)

pub Means-require :
    {A : Type 0} (o : Option A) {rest : A → Call} {f : A → M Bool}
    → ((a : A) → Means (rest a) (f a))
    → Means (require o rest) (attempt o >>= f)
unfolding ◌>>=◌ attempt require
Means-require none h = means λ m. refl
Means-require (some a) h = means (run-Means (h a))

pub Means-int :
    (v : ℤ) {rest : ℤ → Call} {f : ℤ → M Bool}
    → ((w : ℤ) → Means (rest w) (f w))
    → Means (require_int v rest) (int v >>= f)
unfolding ◌>>=◌ int require_int
Means-int v h = elim (Bool-cases (is_int32 v)) [
  | inl fits ↦ means λ m. rw (fits, int, require_int) (run-Means (h v) m)
  | inr large ↦ means λ m. rw (large, int, require_int)
]

pub Means-branch :
    (b : Bool) {p q : Call} {c d : M Bool}
    → Means p c
    → Means q d
    → Means (if b then p else q) (if b then c else d)
Means-branch true hp hq = hp
Means-branch false hp hq = hq

pub Means-ended : (b : Bool) → Means (ended (ok b)) (return b)
unfolding return
Means-ended b = means λ m. refl

catch_false-map : (o : Outcome Bool) (m : Map) → ((catch_false (o, [])).0, m) ≡ catch_false (o, m)
catch_false-map (ok b) m = refl
catch_false-map threw m = refl
catch_false-map undefined m = refl

pub run-caught : (p : Call) (m : Map) → run (caught p) m ≡ catch_false (run p m)
run-caught (ended o) m = catch_false-map o m
run-caught (access next change) m = run-caught (next m) (change m)

module _ {V : Type 0} (view : Text → Map → V) (t : TransactionStruct) where
  -- The accesses of a call are to addresses of the transaction.
  pub data Confined (p : Call) : Type 0 where
    confined : Within view t p → Confined p

  pub Within-of : {p : Call} → Confined p → Within view t p
  Within-of (confined w) = w

  pub Confined-ended : (o : Outcome Bool) → Confined (ended o)
  Confined-ended o = confined tt

  pub Confined-require :
      {A : Type 0} (o : Option A) {rest : A → Call}
      → ((a : A) → o ≡ some a → Confined (rest a))
      → Confined (require o rest)
  unfolding require
  Confined-require none h = confined tt
  Confined-require (some a) h = h a refl

  pub Confined-int :
      (v : ℤ) (rest : ℤ → Call)
      → (is_int32 v ≡ true → Confined (rest v))
      → Confined (require_int v rest)
  unfolding require_int
  Confined-int v rest h = elim (Bool-cases (is_int32 v)) [
    | inl fits ↦ rw (fits, require_int) (h fits)
    | inr large ↦ rw (large, require_int) (confined tt)
  ]

  pub Confined-branch :
      (b : Bool) {p q : Call} → Confined p → Confined q → Confined (if b then p else q)
  Confined-branch true hp hq = hp
  Confined-branch false hp hq = hq

  Within-caught : (p : Call) → Within view t p → Within view t (caught p)
  Within-caught (ended o) w = tt
  Within-caught (access next change) (kept, reads, later) = (
    kept,
    λ m m' a. let (same, a') = reads m m' a in (ap caught same, a'),
    λ m. Within-caught (next m) (later m),
  )

  pub Confined-caught : {p : Call} → Confined p → Confined (caught p)
  Confined-caught {p} c = confined (Within-caught p (Within-of c))

  pub Within-resume :
      {A : Type 0} (rest : A → Call)
      → ((a : A) → Confined (rest a))
      → (o : Outcome A) → Within view t (resume o rest)
  Within-resume rest h (ok a) = Within-of (h a)
  Within-resume rest h threw = tt
  Within-resume rest h undefined = tt

module _ (get_value : Text → Text) (t : TransactionStruct) where
  -- Loading a number needs its name among the addresses.
  pub Confined-load :
      (k : Text) {rest : ℤ → Call}
      → Touches (value get_value) t k
      → ((v : ℤ) → Confined (value get_value) t (rest v))
      → Confined (value get_value) t (perform (load_int get_value k) rest)
  Confined-load k {rest} touched h = confined (
    λ m x out. value-loaded get_value k x m,
    λ m m' a. (
      ap (λ o. resume o rest) (a k touched),
      λ x hx. value-loaded get_value k x m' ∙ a x hx ∙ sym (value-loaded get_value k x m),
    ),
    λ m. Within-resume (value get_value) t rest h (value get_value k m),
  )

  -- Storing one needs it among the outputs.
  pub Confined-store :
      (k : Text) (v : ℤ) {rest : Call}
      → Has k t.outputs
      → is_int32 v ≡ true
      → Confined (value get_value) t rest
      → Confined (value get_value) t (perform (write k (to_string v)) (λ _. rest))
  unfolding write
  Confined-store k v {rest} out fits c =
      let small : IsInt32 v = ground arith in
      confined (
        λ m x missing. value-put get_value k x v m small ∙ elim (Bool-cases (text_eq k x)) [
          | inl same ↦ absurd (missing (subst (λ y. Has y t.outputs) (text_eq_sound k x same) out))
          | inr other ↦ rw other
        ],
        λ m m' a. (
          refl,
          λ x hx. ground (
            arith,
            value-put get_value k x v m small,
            value-put get_value k x v m' small,
            a x hx,
          ),
        ),
        λ m. Within-of (value get_value) t c,
      )
