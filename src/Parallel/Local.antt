-- ===== src/Parallel/Local.antt =====
-- Operations on the entry of one name, and calls that consist of them: what is seen of a map are its
-- entries themselves.
use icsa_artifact.Base.{◌≡◌, sym, ◌∙◌, ap, subst, false, arith, inl, inr, Option-cases, Bool-cases}
use icsa_artifact.Base.Int.{ℤ, is_int32}
use icsa_artifact.Text.{Text, text_eq, text_eq_iff, text_eq_sound}
use icsa_artifact.Text.Decimal.{to_string}
use icsa_artifact.Contract.{Map, M, find, number_of}
use icsa_artifact.Contract.Store.{find-put}
use icsa_artifact.Voting.{insert_new}
use icsa_artifact.Dag.{TransactionStruct}
use icsa_artifact.Dag.Conflict.{Has}
use icsa_artifact.Parallel.{Call, perform, resume}
use icsa_artifact.Parallel.Rules.{Confined, confined, Within-resume}
use icsa_artifact.Parallel.Voting.{store_found, load_votes, or_zero}

-- The operation changes the entry of `k` alone, and does so by that entry.
pub record Local (k : Text) {A : Type 0} (c : M A) : Type 0 where
  pub elsewhere : (m : Map) (x : Text) → text_eq k x ≡ false → find x (c m).1 ≡ find x m
  pub answer : (m m' : Map) → find k m' ≡ find k m → (c m').0 ≡ (c m).0
  pub entry : (m m' : Map) → find k m' ≡ find k m → find k (c m').1 ≡ find k (c m).1

pub Confined-Local :
    (t : TransactionStruct) (k : Text) {A : Type 0} {c : M A} {rest : A → Call}
    → Local k c
    → Has k t.outputs
    → ((a : A) → Confined find t (rest a))
    → Confined find t (perform c rest)
Confined-Local t k {c} {rest} local out h = confined (
  λ m x missing. elim (Bool-cases (text_eq k x)) [
    | inl same ↦ absurd (missing (subst (λ y. Has y t.outputs) (text_eq_sound k x same) out))
    | inr other ↦ local.elsewhere m x other
  ],
  λ m m' a. (
    ap (λ o. resume o rest) (local.answer m m' (a k (inr out))),
    λ x hx. elim (Bool-cases (text_eq k x)) [
      | inl same ↦
          subst (λ y. find y (c m').1 ≡ find y (c m).1) (text_eq_sound k x same)
            (local.entry m m' (a k (inr out)))
      | inr other ↦ local.elsewhere m' x other ∙ a x hx ∙ sym (local.elsewhere m x other)
    ],
  ),
  λ m. Within-resume find t rest h (c m).0,
)

pub Local-insert_new : (k v : Text) → Local k (insert_new k v)
unfolding insert_new
Local-insert_new k v = record {
  elsewhere = λ m x other. elim (Option-cases (find k m)) [
    | inl absent ↦ rw (absent, insert_new) (ground (arith, find-put k x v m))
    | inr (text, at) ↦ rw (at, insert_new)
  ];
  answer = λ m m' e. elim (Option-cases (find k m)) [
    | inl absent ↦ rw (insert_new, e, absent)
    | inr (text, at) ↦ rw (insert_new, e, at)
  ];
  entry = λ m m' e. elim (Option-cases (find k m)) [
    | inl absent ↦
        rw (insert_new, e, absent)
          (ground (arith, find-put k k v m, find-put k k v m', text_eq_iff k k))
    | inr (text, at) ↦ rw (insert_new, e, at) e
  ];
}

pub Local-load_votes : (get_value : Text → Text) (k : Text) → Local k (load_votes get_value k)
unfolding load_votes
Local-load_votes get_value k =
    let v = to_string (or_zero (number_of (get_value k))) in
    record {
      elsewhere = λ m x other. elim (Option-cases (find k m)) [
        | inl absent ↦ rw (absent, load_votes) (ground (arith, find-put k x v m))
        | inr (text, at) ↦ rw (at, load_votes)
      ];
      answer = λ m m' e. elim (Option-cases (find k m)) [
        | inl absent ↦ rw (load_votes, e, absent)
        | inr (text, at) ↦ rw (load_votes, e, at)
      ];
      entry = λ m m' e. elim (Option-cases (find k m)) [
        | inl absent ↦
            rw (load_votes, e, absent)
              (ground (arith, find-put k k v m, find-put k k v m', text_eq_iff k k))
        | inr (text, at) ↦ rw (load_votes, e, at) e
      ];
    }

pub Local-store_found : (k : Text) (count : ℤ) → Local k (store_found k count)
unfolding store_found
Local-store_found k count = elim (Bool-cases (is_int32 count)) [
  | inl fits ↦ record {
    elsewhere = λ m x other. elim (Option-cases (find k m)) [
      | inl absent ↦ rw (absent, store_found)
      | inr (text, at) ↦
          rw (at, store_found, fits) (ground (arith, find-put k x (to_string count) m))
    ];
    answer = λ m m' e. elim (Option-cases (find k m)) [
      | inl absent ↦ rw (store_found, e, absent)
      | inr (text, at) ↦ rw (store_found, e, at, fits)
    ];
    entry = λ m m' e. elim (Option-cases (find k m)) [
      | inl absent ↦ rw (store_found, e, absent) (ground arith)
      | inr (text, at) ↦
          rw (store_found, e, at, fits)
            (ground (
              arith,
              find-put k k (to_string count) m,
              find-put k k (to_string count) m',
              text_eq_iff k k,
            ))
    ];
  }
  | inr large ↦ record {
    elsewhere = λ m x other. elim (Option-cases (find k m)) [
      | inl absent ↦ rw (absent, store_found)
      | inr (text, at) ↦ rw (at, store_found, large)
    ];
    answer = λ m m' e. elim (Option-cases (find k m)) [
      | inl absent ↦ rw (store_found, e, absent)
      | inr (text, at) ↦ rw (store_found, e, at, large)
    ];
    entry = λ m m' e. elim (Option-cases (find k m)) [
      | inl absent ↦ rw (store_found, e, absent) (ground arith)
      | inr (text, at) ↦ rw (store_found, e, at, large) e
    ];
  }
]
