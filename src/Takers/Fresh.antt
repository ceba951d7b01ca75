-- ===== src/Takers/Fresh.antt =====
-- Runs of the distributed node's threads in which no exchange of the second loop succeeds with a
-- value other than 0 in `var_zero`, against the steps of Workers.
use icsa_artifact.Base.{
  ℕ, ◌<◌, ◌≡◌, ◌≢◌, sym, ◌∙◌, Bool, Option, none, some, arith, ℕ_discrete, subst,
}
use icsa_artifact.Base.Int.{ℤ, pos, negsuc}
use icsa_artifact.Workers.{Phase, waiting, running, executed, releasing, update}
use icsa_artifact.Workers
use icsa_artifact.Workers.Inv.{IsDag}
use icsa_artifact.Workers.Keep.{Reach-Inv, claimed}
use icsa_artifact.Takers.{
  Place, outside, first, first_free, second, second_free, storing, processing, counting, lowering,
}

-- The transaction that a thread has taken.
abbrev pub held : Place → Option ℕ
held (storing i) = some i
held (processing i) = some i
held (counting i) = some i
held (lowering i k) = some i
held _ = none

-- The place of a thread fits the phase of its transaction.
abbrev pub Fits : ℕ → (ℕ → Phase) → Place → Type 0
Fits n phase (first_free i) = i < n
Fits n phase (second_free i v) = i < n
Fits n phase (storing i) = (i < n) × (phase i ≡ running)
Fits n phase (processing i) = (i < n) × (phase i ≡ running)
Fits n phase (counting i) = (i < n) × (phase i ≡ executed)
Fits n phase (lowering i k) = (i < n) × (phase i ≡ releasing k)
Fits n phase _ = Unit

pub Fits-update :
    (n : ℕ) (phase : ℕ → Phase) (i : ℕ) (new : Phase) (p : Place)
    → held p ≢ some i
    → Fits n phase p
    → Fits n (update phase i new) p
Fits-update n phase i new outside ne f = tt
Fits-update n phase i new (first j v) ne f = tt
Fits-update n phase i new (first_free j) ne f = f
Fits-update n phase i new (second j v) ne f = tt
Fits-update n phase i new (second_free j v) ne f = f
Fits-update n phase i new (storing j) ne f = (f.0, ground (arith, f.1))
Fits-update n phase i new (processing j) ne f = (f.0, ground (arith, f.1))
Fits-update n phase i new (counting j) ne f = (f.0, ground (arith, f.1))
Fits-update n phase i new (lowering j k) ne f = (f.0, ground (arith, f.1))

-- A thread does not hold a transaction that waits.
not_held :
    (n : ℕ) (phase : ℕ → Phase) (i : ℕ) (p : Place)
    → phase i ≡ waiting
    → Fits n phase p
    → held p ≢ some i
not_held n phase i outside w f e = cc
not_held n phase i (first j v) w f e = cc
not_held n phase i (first_free j) w f e = cc
not_held n phase i (second j v) w f e = cc
not_held n phase i (second_free j v) w f e = cc
not_held n phase i (storing j) w f e = ground (arith, f.1)
not_held n phase i (processing j) w f e = ground (arith, f.1)
not_held n phase i (counting j) w f e = ground (arith, f.1)
not_held n phase i (lowering j k) w f e = ground (arith, f.1)

pub update-same : (place : ℕ → Place) (t : ℕ) (p : Place) (u : ℕ) → t ≡ u → update place t p u ≡ p
update-same place t p u e = ground (arith, e)

update-else : (place : ℕ → Place) (t : ℕ) (p : Place) (u : ℕ) → t ≢ u → update place t p u ≡ place u
update-else place t p u ne = ground (arith, ne)

module _ (n : ℕ) (adj : ℕ → ℕ → ℕ) (assigned : ℕ → Bool) where
  -- The threads as a state of Workers: the phases that go with their places.
  pub record Image (degree : ℕ → ℤ) (count : ℕ) (place : ℕ → Place) : Type 0 where
    pub phase : ℕ → Phase
    pub reach :
        Workers.Reach n adj assigned
          (record { in_degree = degree; completed = count; phase = phase })
    pub fits : (t : ℕ) → Fits n phase (place t)
    pub one_holds : (t u i : ℕ) → held (place t) ≡ some i → held (place u) ≡ some i → t ≡ u

  -- Thread `t` goes to place `p`, and the phases are other ones.
  pub set_place :
      {degree degree' : ℕ → ℤ} {c c' : ℕ} {place : ℕ → Place}
      → (im : Image degree c place) → (phase' : ℕ → Phase)
      → Workers.Reach n adj assigned
          (record { in_degree = degree'; completed = c'; phase = phase' })
      → (t : ℕ) (p : Place) → Fits n phase' p
      → ((u : ℕ) → t ≢ u → Fits n phase' (place u))
      → ((u i : ℕ) → t ≢ u → held p ≡ some i → held (place u) ≢ some i)
      → Image degree' c' (update place t p)
  set_place {place = place} im phase' r t p mine others apart = record {
    phase = phase';
    reach = r;
    fits = λ u. elim (ℕ_discrete t u) [
      | yes here ↦ subst (Fits n phase') (sym (update-same place t p u here)) mine
      | no there ↦ subst (Fits n phase') (sym (update-else place t p u there)) (others u there)
    ];
    one_holds = λ u w i eu ew. elim (ℕ_discrete t u) [
      | yes here ↦ elim (ℕ_discrete t w) [
        | yes also ↦ sym here ∙ also
        | no there ↦ absurd (apart w i there (ground (arith, eu)) (ground (arith, ew)))
      ]
      | no there ↦ elim (ℕ_discrete t w) [
        | yes here ↦ absurd (apart u i there (ground (arith, ew)) (ground (arith, eu)))
        | no also ↦ im.one_holds u w i (ground (arith, eu)) (ground (arith, ew))
      ]
    ];
  }

  -- It holds no transaction there.
  pub lets_go :
      {degree : ℕ → ℤ} {c : ℕ} {place : ℕ → Place}
      → (im : Image degree c place) (t : ℕ) (p : Place) → Fits n im.phase p
      → held p ≡ none
      → Image degree c (update place t p)
  lets_go im t p mine nothing =
      set_place im im.phase im.reach t p mine (λ u ne. im.fits u) (λ u i ne e. cc)

  -- It goes on with its transaction.
  pub carries_on :
      {degree degree' : ℕ → ℤ} {c c' : ℕ} {place : ℕ → Place}
      → (im : Image degree c place) (t i : ℕ) (p : Place) (new : Phase) → held (place t) ≡ some i
      → held p ≡ some i
      → Workers.Reach n adj assigned
          (record { in_degree = degree'; completed = c'; phase = update im.phase i new })
      → Fits n (update im.phase i new) p
      → Image degree' c' (update place t p)
  carries_on {place = place} im t i p new has still r mine =
      let other : (u : ℕ) → t ≢ u → held (place u) ≢ some i =
        λ u ne e. ne (im.one_holds t u i has e) in
      set_place im (update im.phase i new) r t p mine
        (λ u ne. Fits-update n im.phase i new (place u) (other u ne) (im.fits u))
        (λ u j ne e e'. other u ne (e' ∙ sym e ∙ still))

  module _ (dag : IsDag adj assigned) where
    -- An exchange from 0 to -1.
    pub takes :
        {degree : ℕ → ℤ} {c : ℕ} {place : ℕ → Place}
        → (im : Image degree c place) (t i : ℕ) → i < n
        → degree i ≡ pos 0
        → Image (update degree i (negsuc 0)) c (update place t (storing i))
    takes {place = place} im t i lt free =
        let (mine, fresh, clear) =
          claimed n adj assigned dag (Reach-Inv n adj assigned dag im.reach) i lt free in
        let other : (u : ℕ) → held (place u) ≢ some i =
          λ u. not_held n im.phase i (place u) fresh (im.fits u) in
        set_place im (update im.phase i running) (Workers.next im.reach (Workers.claim i lt free)) t
          (storing i) (lt, ground arith)
          (λ u ne. Fits-update n im.phase i running (place u) (other u) (im.fits u))
          (λ u j ne e e'. other u (e' ∙ sym e))
