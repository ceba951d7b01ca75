-- ===== src/Components/Unite.antt =====
-- What `unite` does to the trees of a disjoint-set forest.
use icsa_artifact.Base.{
  ℕ, ◌+◌, ◌<◌, ◌≡◌, ◌≢◌, refl, sym, subst, true, false, ◌==◌, ltb, if◌then◌else◌, arith, ℕ_discrete,
  dec_lt,
}
use icsa_artifact.Workers.{update}
use icsa_artifact.Components.{Forest, find_root, link, unite}
use icsa_artifact.Components.Roots.{Root, at, up, Root-top, Ranked, find-Found}

-- In the trees of `q`, whatever had the root `s` in those of `p` has the root `moved s`.
pub record Grows (p q : ℕ → ℕ) : Type 0 where
  pub moved : ℕ → ℕ
  pub keeps : {s x : ℕ} → Root p s x → Root q (moved s) x

pub Grows-trans : {p q r : ℕ → ℕ} → Grows p q → Grows q r → Grows p r
Grows-trans g h = record {
  moved = λ s. h.moved (g.moved s);
  keeps = λ root. h.keeps (g.keeps root);
}

abbrev pub Grows-refl : {p : ℕ → ℕ} → Grows p p
Grows-refl = record { moved = λ s. s; keeps = λ root. root }

-- Two numbers with the same root.
pub record Same (p : ℕ → ℕ) (x y : ℕ) : Type 0 where
  pub root : ℕ
  pub left : Root p root x
  pub right : Root p root y

pub Grows-Same : {p q : ℕ → ℕ} {x y : ℕ} → Grows p q → Same p x y → Same q x y
Grows-Same g s = record { root = g.moved s.root; left = g.keeps s.left; right = g.keeps s.right }

-- The root `a` gets the root `c` for its parent.
module _ {p : ℕ → ℕ} {a c : ℕ} (top_a : p a ≡ a) (top_c : p c ≡ c) (ne : a ≢ c) where
  other_root : {s x : ℕ} → s ≢ a → Root p s x → Root (update p a c) s x
  other_root other (at e same) = at (ground arith) same
  other_root {s} other (up {x} n g) =
      let unchanged : update p a c x ≡ p x = ground arith in
      up (ground arith) (subst (λ z. Root (update p a c) s z) (sym unchanged) (other_root other g))

  moved_root : {x : ℕ} → Root p a x → Root (update p a c) c x
  moved_root (at {x} e same) =
      let changed : update p a c x ≡ c = ground arith in
      let top : update p a c c ≡ c = ground arith in
      up (ground arith) (subst (λ z. Root (update p a c) c z) (sym changed) (at top refl))
  moved_root (up {x} n g) =
      let unchanged : update p a c x ≡ p x = ground arith in
      up (ground arith) (subst (λ z. Root (update p a c) c z) (sym unchanged) (moved_root g))

  attach-Root : {s x : ℕ} → Root p s x → Root (update p a c) (if s == a then c else s) x
  attach-Root {s} {x} g = elim (ℕ_discrete s a) [
    | yes e ↦
        let test : (s == a) ≡ true = ground arith in
        rw test (moved_root (subst (λ z. Root p z x) e g))
    | no other ↦ let test : (s == a) ≡ false = ground arith in rw test (other_root other g)
  ]

  abbrev attach-Grows : Grows p (update p a c)
  attach-Grows = record { moved = λ s. if s == a then c else s; keeps = λ g. attach-Root g }

-- What linking two roots gives.
record Linked (p rank : ℕ → ℕ) (b a c : ℕ) (d : Forest) : Type 0 where
  grows : Grows p d.parent
  joins : grows.moved a ≡ grows.moved c
  ranked : Ranked d.parent d.rank (b + 1)

module _ {b a c : ℕ} (d : Forest) (k : Ranked d.parent d.rank b) (top_a : d.parent a ≡ a)
    (top_c : d.parent c ≡ c) where
  link_same : a ≡ c → Linked d.parent d.rank b a c (link a c d)
  unfolding link
  link_same e =
      let test : (a == c) ≡ true = ground arith in
      rw test (record {
        grows = Grows-refl;
        joins = e;
        ranked = record { rises = k.rises; low = λ x. omega (arith, k.low x) };
      })

  link_left : a ≢ c → d.rank a < d.rank c → Linked d.parent d.rank b a c (link a c d)
  unfolding link
  link_left ne lt =
      let test : (a == c) ≡ false = ground arith in
      let less : ltb (d.rank a) (d.rank c) ≡ true = ground arith in
      rw (test, less)
        (record {
          grows = attach-Grows top_a top_c ne;
          joins = ground arith;
          ranked = record {
            rises = λ x h. ground (arith, k.rises x);
            low = λ x. omega (arith, k.low x);
          };
        })

  link_right : a ≢ c → d.rank c < d.rank a → Linked d.parent d.rank b a c (link a c d)
  unfolding link
  link_right ne lt =
      let test : (a == c) ≡ false = ground arith in
      let more : ltb (d.rank a) (d.rank c) ≡ false = ground arith in
      let less : ltb (d.rank c) (d.rank a) ≡ true = ground arith in
      rw (test, more, less)
        (record {
          grows = attach-Grows top_c top_a (λ e. ne (sym e));
          joins = ground arith;
          ranked = record {
            rises = λ x h. ground (arith, k.rises x);
            low = λ x. omega (arith, k.low x);
          };
        })

  link_equal :
      a ≢ c
      → ¬ (d.rank a < d.rank c)
      → ¬ (d.rank c < d.rank a)
      → Linked d.parent d.rank b a c (link a c d)
  unfolding link
  link_equal ne not_less not_more =
      let test : (a == c) ≡ false = ground arith in
      let less : ltb (d.rank a) (d.rank c) ≡ false = ground arith in
      let more : ltb (d.rank c) (d.rank a) ≡ false = ground arith in
      rw (test, less, more)
        (record {
          grows = attach-Grows top_c top_a (λ e. ne (sym e));
          joins = ground arith;
          ranked = record {
            rises = λ x h. ground (arith, k.rises x);
            low = λ x. ground (arith, k.low x, k.low a);
          };
        })

  link-Linked : Linked d.parent d.rank b a c (link a c d)
  link-Linked = elim (ℕ_discrete a c) [
    | yes e ↦ link_same e
    | no ne ↦ elim (dec_lt (d.rank a) (d.rank c)) [
      | yes lt ↦ link_left ne lt
      | no not_less ↦ elim (dec_lt (d.rank c) (d.rank a)) [
        | yes lt ↦ link_right ne lt
        | no not_more ↦ link_equal ne not_less not_more
      ]
    ]
  ]

-- What `unite` gives.
pub record United (p : ℕ → ℕ) (b x y : ℕ) (d : Forest) : Type 0 where
  pub grows : Grows p d.parent
  pub same : Same d.parent x y
  pub ranked : Ranked d.parent d.rank (b + 1)

pub unite-United :
    (fuel x y b : ℕ) (d : Forest)
    → Ranked d.parent d.rank b
    → b < fuel
    → United d.parent b x y (unite fuel x y d)
unfolding unite
unite-United fuel x y b d k enough_fuel =
    let f = find-Found fuel x k (omega arith) in
    let g = find-Found fuel y f.ranked (omega arith) in
    let l =
      link-Linked (record d { parent = (find_root fuel y (find_root fuel x d.parent).1).1 })
        g.ranked (Root-top (g.keeps (f.keeps f.root))) (Root-top (g.keeps g.root)) in
    record {
      grows =
          Grows-trans (record { moved = λ s. s; keeps = λ root. g.keeps (f.keeps root) }) l.grows;
      same = record {
        root = _;
        left = l.grows.keeps (g.keeps (f.keeps f.root));
        right =
            subst (λ z. Root (unite fuel x y d).parent z y) (sym l.joins)
              (l.grows.keeps (g.keeps g.root));
      };
      ranked = l.ranked;
    }
