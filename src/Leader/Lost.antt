-- ===== src/Leader/Lost.antt =====
-- What `monitorComponents` does to the assignment.
use icsa_artifact.Base.{
  ℕ, zero, suc, ◌+◌, ◌≡◌, refl, ap₂, Bool, not, ◌||◌, true, false, arith, ◌<◌, ◌&&◌, Option, none,
  some, List, [], ◌∷◌, ltb, if◌then◌else◌, get_elem?, Bool-cases, inl, inr,
}
use icsa_artifact.Base.Int.{ℤ, pos}
use icsa_artifact.Text.{Text, bytes, text_eq}
use icsa_artifact.Commerce.{words}
use icsa_artifact.Leader.{
  EtcdMember, Entry, Leader, mark_healthy, is_other_node, read_health, get_active_followers,
  reassign_from, monitor_turn,
}

-- The member with a number, marked as healthy.
pub record Healthy (members : List EtcdMember) (n : ℕ) : Type 0 where
  pub member : EtcdMember
  pub at : get_elem? members n ≡ some member
  pub marked : member.healthy ≡ true

-- Every component of a table is assigned to a member that is marked as healthy.
abbrev pub AllHealthy : List EtcdMember → List Entry → Type 0
AllHealthy members [] = Unit
AllHealthy members (e ∷ es) =
    ((n : ℕ) × (e.assigned_follower ≡ pos n) × Healthy members n) × AllHealthy members es

first_marked :
    (m : EtcdMember) (ms : List EtcdMember) (n : ℕ)
    → Healthy (m ∷ ms) n
    → Healthy (record m { healthy = true } ∷ ms) n
first_marked m ms zero h = record { member = record m { healthy = true }; at = refl; marked = refl }
first_marked m ms (suc n) h = record { member = h.member; at = h.at; marked = h.marked }

rest_marked :
    (m : EtcdMember) (ms ms' : List EtcdMember) (n : ℕ)
    → ((k : ℕ) → Healthy ms k → Healthy ms' k)
    → Healthy (m ∷ ms) n
    → Healthy (m ∷ ms') n
rest_marked m ms ms' zero keep h = record { member = h.member; at = h.at; marked = h.marked }
rest_marked m ms ms' (suc n) keep h =
    let h' = keep n (record { member = h.member; at = h.at; marked = h.marked }) in
    record { member = h'.member; at = h'.at; marked = h'.marked }

Healthy-mark :
    (ip : Text) (members : List EtcdMember) (n : ℕ)
    → Healthy members n
    → Healthy (mark_healthy ip members) n
unfolding mark_healthy
Healthy-mark ip [] n h = h
Healthy-mark ip (m ∷ ms) n h = elim (Bool-cases (text_eq m.ip_address ip)) [
  | inl here ↦ rw here (first_marked m ms n h)
  | inr other ↦ rw other (rest_marked m ms (mark_healthy ip ms) n (Healthy-mark ip ms) h)
]

-- The state after a word: with an address, the answer of the member is counted.
Healthy-word :
    (node_ip : Text) (ip' : Option Text) (w : Text) (ws : List Text) (members : List EtcdMember)
    (count n : ℕ)
    → ((ip : Option Text) (ms : List EtcdMember) (c : ℕ)
        → Healthy ms n
        → Healthy (read_health node_ip ip ws ms c).1 n)
    → Healthy members n
    → Healthy
        (elim ip' as (λ _. ℕ × List EtcdMember) [
          | none ↦ read_health node_ip ip' ws members count
          | some address ↦
              if text_eq w (bytes "healthy:")
              then read_health node_ip none ws (mark_healthy address members) (count + 1)
              else read_health node_ip ip' ws members count
        ]).1
        n
Healthy-word node_ip none w ws members count n next h = next none members count h
Healthy-word node_ip (some address) w ws members count n next h =
    elim (Bool-cases (text_eq w (bytes "healthy:"))) [
      | inl counted ↦
          rw counted (
            next none (mark_healthy address members) (count + 1) (Healthy-mark address members n h))
      | inr waiting ↦ rw waiting (next (some address) members count h)
    ]

Healthy-read :
    (node_ip : Text) (ip : Option Text) (ws : List Text) (members : List EtcdMember) (count n : ℕ)
    → Healthy members n
    → Healthy (read_health node_ip ip ws members count).1 n
unfolding read_health
Healthy-read node_ip ip [] members count n h = h
Healthy-read node_ip ip (w ∷ ws) members count n h =
    Healthy-word node_ip (if is_other_node node_ip w then some w else ip) w ws members count n
      (λ ip' ms c k. Healthy-read node_ip ip' ws ms c n k) h

AllHealthy-read :
    (members members' : List EtcdMember) (es : List Entry)
    → ((n : ℕ) → Healthy members n → Healthy members' n)
    → AllHealthy members es
    → AllHealthy members' es
AllHealthy-read members members' [] keep all = tt
AllHealthy-read members members' (e ∷ es) keep ((n, at, h), all) =
    ((n, at, keep n h), AllHealthy-read members members' es keep all)

reassign-same :
    (members : List EtcdMember) (ids : List ℤ) (active i : ℕ) (es : List Entry)
    → AllHealthy members es
    → reassign_from members ids active i es ≡ some (false, es)
unfolding reassign_from
reassign-same members ids active i [] all = refl
reassign-same members ids active i (e ∷ es) ((n, at, h), all) =
    rw (reassign_from, at, h.at, h.marked, reassign-same members ids active (suc i) es all)
      (ap₂ (λ b id. some (not b || false, record e { assigned_follower = id } ∷ es)) h.marked at)

-- The health command shows fewer members than before, and one at least.
abbrev pub FindsFewer : Text → Text → Leader → Type 0
FindsFewer node_ip output l =
    ((get_active_followers node_ip output l).0 < l.active_followers)
    × (0 < (get_active_followers node_ip output l).0)

-- If every component is assigned to a member that is marked as healthy, then whatever the health
-- command prints, a turn of `monitorComponents` moves no component. Where the command shows fewer
-- members than before, and one at least, the turn is undefined if nothing was stored in `flag`
-- before; in every other case it is defined, and leaves the table and `flag` as they are.
pub monitor_moves_nothing :
    (node_ip output : Text) (flag : Option Bool) (l : Leader)
    → AllHealthy l.member_list l.table
    → (FindsFewer node_ip output l → flag ≡ none → monitor_turn node_ip output flag l ≡ none)
      × (¬ (FindsFewer node_ip output l × (flag ≡ none))
          → (l' : Leader) × (monitor_turn node_ip output flag l ≡ some (flag, l'))
            × (l'.table ≡ l.table))
unfolding monitor_turn get_active_followers
monitor_moves_nothing node_ip output flag l all =
    let r = read_health node_ip none (words output) l.member_list 0 in
    let still =
      AllHealthy-read l.member_list r.1 l.table
        (λ n. Healthy-read node_ip none (words output) l.member_list 0 n) all in
    let same = reassign-same r.1 l.healthy_member_ids r.0 0 l.table still in
    elim (Bool-cases (ltb r.0 l.active_followers && ltb 0 r.0)) [
      | inl fewer ↦ (
        λ f e. rw (monitor_turn, fewer, same, e) refl,
        elim flag
            as (λ g.
              ¬ (((r.0 < l.active_followers) × (0 < r.0)) × (g ≡ none))
              → (l' : Leader) × (monitor_turn node_ip output g l ≡ some (g, l'))
                × (l'.table ≡ l.table)) [
                  | none ↦ λ h. absurd (h (ground (arith, fewer), refl))
                  | some f ↦ λ h. (
                    record l { member_list = r.1; active_followers = r.0 },
                    rw (monitor_turn, fewer, same) refl,
                    refl,
                  )
                ],
      )
      | inr other ↦ (
        λ f e. absurd (ground (arith, other, f)),
        λ h. (record l { member_list = r.1 }, rw (monitor_turn, other) refl, refl),
      )
    ]
