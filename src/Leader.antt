-- ===== src/Leader.antt =====
-- BlockRAFT-distributed_node/leader/leader.h: the members of the cluster, the assignment of the
-- components of a block to followers, and the data that the followers send back.
pub mod Assign
pub mod Lost
pub mod Fetch
use icsa_artifact.Base.{
  ℕ, zero, suc, ◌+◌, ◌-◌, ◌%◌, ◌==◌, Bool, true, false, not, ◌&&◌, ◌||◌, Option, none, some, List,
  [], ◌∷◌, ◌++◌, ltb, if◌then◌else◌, length, get_elem?, take, drop,
}
use icsa_artifact.Base.Int.{ℤ, pos, negsuc, ◌+ℤ◌}
use icsa_artifact.Text.{Text, bytes, text_eq}
use icsa_artifact.Text.Decimal.{stoi, to_string}
use icsa_artifact.Text.Split.{segments, split_at}
use icsa_artifact.Commerce.{words}

-- `struct EtcdMember`
pub record EtcdMember : Type 0 where
  pub ip_address : Text
  pub id : Text
  pub healthy : Bool

-- A component of the table: its transactions, and the follower if one was set.
pub record Entry : Type 0 where
  pub transaction_list : List ℕ
  pub assigned_follower : ℤ

-- The fields of `leader` that the functions below use.
pub record Leader : Type 0 where
  pub healthy_member_ids : List ℤ
  pub member_list : List EtcdMember
  pub table : List Entry
  pub active_followers : ℕ

-- `memberList[…].healthy = true` for the first member with the address.
unfoldable pub mark_healthy : Text → List EtcdMember → List EtcdMember
mark_healthy ip [] = []
mark_healthy ip (member ∷ members) =
    if text_eq member.ip_address ip
    then record member { healthy = true } ∷ members
    else member ∷ mark_healthy ip members

-- `word.substr(0, 7) == "http://" && word.substr(7) != node_ip + ":2379"`
unfoldable pub is_other_node : Text → Text → Bool
is_other_node node_ip word =
    text_eq (take 7 word) (bytes "http://")
    && not (text_eq (drop 7 word) (node_ip ++ bytes ":2379"))

-- The loop of `getActiveFollowers`, with `ip` set while a state is awaited.
unfoldable pub read_health :
    Text → Option Text → List Text → List EtcdMember → ℕ → ℕ × List EtcdMember
unfolding mark_healthy is_other_node
read_health node_ip ip [] members count = (count, members)
read_health node_ip ip (word ∷ rest) members count =
    let ip' = if is_other_node node_ip word then some word else ip in
    let waiting = read_health node_ip ip' rest members count in
    elim ip' [
      | none ↦ waiting
      | some address ↦
          let counted = read_health node_ip none rest (mark_healthy address members) (count + 1) in
          if text_eq word (bytes "healthy:") then counted else waiting
    ]

-- `getActiveFollowers`, of the output of `etcdctl endpoint health`.
unfoldable pub get_active_followers : Text → Text → Leader → ℕ × Leader
unfolding read_health
get_active_followers node_ip output l =
    let (count, members) = read_health node_ip none (words output) l.member_list 0 in
    (count, record l { member_list = members })

-- The numbers of the healthy members; `none` is an exception of `substr` or `stoi`.
unfoldable pub healthy_ids : List EtcdMember → Option (List ℤ)
healthy_ids [] = some []
healthy_ids (member ∷ members) =
    let rest = healthy_ids members in
    if member.healthy
    then elim member.id [
      | [] ↦ none
      | c ∷ cs ↦ elim (stoi cs) [
        | none ↦ none
        | some id ↦ elim rest [ none ↦ none | some ids ↦ some (id ∷ ids) ]
      ]
    ]
    else rest

-- `healthyMemberIds[i % activeFollowers]`
abbrev pub follower_at : List ℤ → ℕ → ℕ → Option ℤ
follower_at ids active i = get_elem? ids (i % active)

-- The loop of `assignFollowers` over the components from `i` on.
unfoldable pub assign_from : List ℤ → ℕ → ℕ → List Entry → Option (List Entry)
assign_from ids active i [] = some []
assign_from ids active i (e ∷ es) = elim (follower_at ids active i) [
  | none ↦ none
  | some id ↦ elim (assign_from ids active (suc i) es) [
    | none ↦ none
    | some es' ↦ some (record e { assigned_follower = id } ∷ es')
  ]
]

-- `assignFollowers` from the assignment of `activeFollowers` on, with as many components as the table
-- has. The answer is `false` if there is a component and no healthy member.
unfoldable pub assign_with : List ℤ → Leader → Option (Bool × Leader)
unfolding assign_from
assign_with ids l =
    let l' : Leader = record l { healthy_member_ids = ids; active_followers = length ids } in
    if ltb 0 (length ids)
    then elim (assign_from ids (length ids) 0 l.table) [
      | none ↦ none
      | some table' ↦ some (true, record l' { table = table' })
    ]
    else elim l.table [ [] ↦ some (true, l') | _ ∷ _ ↦ some (false, l') ]

-- `assignFollowers`; `none` is an exception. Where the answer is `true` the table is sent to etcd.
unfoldable pub assign_followers : Leader → Option (Bool × Leader)
unfolding assign_with healthy_ids
assign_followers l = elim (healthy_ids l.member_list) [
  | none ↦ none
  | some ids ↦ assign_with (l.healthy_member_ids ++ ids) l
]

-- The loop of `monitorComponents` over the table: a component whose member is not healthy goes to
-- another one, and whether one did. `memberList[follower]` past the end is undefined: `none`.
unfoldable pub reassign_from :
    List EtcdMember → List ℤ → ℕ → ℕ → List Entry → Option (Bool × List Entry)
reassign_from members ids active i [] = some (false, [])
reassign_from members ids active i (e ∷ es) = elim e.assigned_follower [
  | negsuc n ↦ none
  | pos n ↦ elim (get_elem? members n) [
    | none ↦ none
    | some member ↦
        elim (if member.healthy then some e.assigned_follower else follower_at ids active i) [
          | none ↦ none
          | some id ↦ elim (reassign_from members ids active (suc i) es) [
            | none ↦ none
            | some r ↦ some (not member.healthy || r.0, record e { assigned_follower = id } ∷ r.1)
          ]
        ]
  ]
]

-- One turn of `monitorComponents`. `flag` is its local variable, which lives through all turns:
-- `none` while nothing was stored in it, and then its test is undefined behaviour. Where it is true
-- the table is sent to etcd.
unfoldable pub monitor_turn :
    Text → Text → (flag : Option Bool) → Leader → Option (Option Bool × Leader)
unfolding get_active_followers reassign_from
monitor_turn node_ip output flag l =
    let (count, l') = get_active_followers node_ip output l in
    if ltb count l'.active_followers && ltb 0 count
    then elim (reassign_from l'.member_list l'.healthy_member_ids count 0 l'.table) [
      | none ↦ none
      | some r ↦ elim (if r.0 then some true else flag) [
        | none ↦ none
        | some f ↦ some (some f, record l' { active_followers = count; table = r.1 })
      ]
    ]
    else some (flag, l')

-- The sum in `checkComponents` over the members from `i` on: `status` is what etcd has under
-- `…/status/s<i>`; `none` is an exception of `stoi`.
unfoldable pub completed_from : (ℕ → Option Text) → (i left : ℕ) → Option ℤ
completed_from status i zero = some (pos 0)
completed_from status i (suc left) =
    let rest = completed_from status (suc i) left in
    elim (status i) [
      | none ↦ rest
      | some text ↦ elim (stoi text) [
        | none ↦ none
        | some count ↦ elim rest [ none ↦ none | some sum ↦ some (count +ℤ sum) ]
      ]
    ]

-- `rtrim`
unfoldable pub rtrim : Text → Text
rtrim [] = []
rtrim (c ∷ cs) =
    let rest = rtrim cs in
    elim rest [ [] ↦ if c == b'\n' then [] else c ∷ [] | d ∷ ds ↦ c ∷ d ∷ ds ]

-- The pairs of a text `key=value;…`; a piece without `=` is left out.
unfoldable pub pairs_of : List Text → List (Text × Text)
pairs_of [] = []
pairs_of (piece ∷ pieces) =
    let rest = pairs_of pieces in
    elim (split_at b'=' piece) [ none ↦ rest | some pair ↦ pair ∷ rest ]

module _ {S : Type 0} (insert : Text → Text → S → S) where
  -- The loop of `fetchAndParseKeys`: the pairs go into the global state, the keys into the answer.
  unfoldable pub insert_pairs : List (Text × Text) → Text → S → Text × S
  insert_pairs [] keys state = (keys, state)
  insert_pairs ((key, value) ∷ pairs) keys state =
      insert_pairs pairs (keys ++ (key ++ bytes " ")) (insert key value state)

  -- `fetchAndParseKeys`, of the data that etcd has for a node.
  unfoldable pub fetch_and_parse_keys : Option Text → S → Text × S
  unfolding insert_pairs pairs_of
  fetch_and_parse_keys none state = ([], state)
  fetch_and_parse_keys (some data') state = insert_pairs (pairs_of (segments b';' data')) [] state

  -- The threads of `saveData`, one after the other, and their answers joined.
  unfoldable pub fetch_all : List (Option Text) → S → Text × S
  unfolding fetch_and_parse_keys
  fetch_all [] state = ([], state)
  fetch_all (data' ∷ rest) state =
      let (keys, state') = fetch_and_parse_keys data' state in
      let (more, state'') = fetch_all rest state' in (keys ++ more, state'')
