-- ===== src/Invites/Chain.antt =====
-- internal/storage/invites.go: who invited whom, down from a member, up from a member, and
-- counted. A recursive query is run the way SQL does: the rows of a round are joined to the table
-- until a round has no rows. The rows of a tree are given before they are ordered, and all rows before
-- the names and dates are added.
pub mod Rounds
pub mod Laws
pub mod Recruiters
pub mod Ranking
use loon_site.Prelude.{
  ℕ, zero, suc, ◌+◌, ◌-◌, Bool, true, false, Option, none, some, List, [], ◌∷◌, ◌++◌, map, keep,
  any, count_if, length, ltb, ◌==◌, nat_eq, ◌&&◌, ◌||◌, if◌then◌else◌,
}
use loon_site.Invites.{InviteCode, Codes, is_set}

-- `InviteTreeDepth`
abbrev pub invite_tree_depth : ℕ
invite_tree_depth = 5

-- Who issued a code, and who used it.
abbrev pub Edges : Type 0
Edges = List (ℕ × ℕ)

abbrev pub edge_of : ℕ → Option ℕ → Edges
edge_of creator none = []
edge_of creator (some user) = (creator, user) ∷ []

-- `WHERE used_by IS NOT NULL`
unfoldable pub edges_of : Codes → Edges
edges_of [] = []
edges_of (r ∷ rows) = edge_of r.created_by r.used_by ++ edges_of rows

-- A member of a chain, with the distance.
abbrev pub Rows : Type 0
Rows = List (ℕ × ℕ)

-- The edges that leave a member, as rows at a depth.
unfoldable pub rows_from : ℕ → ℕ → Edges → Rows
rows_from member depth [] = []
rows_from member depth ((from, to) ∷ edges) =
    let rest = rows_from member depth edges in if from == member then (to, depth) ∷ rest else rest

-- `JOIN tree t ON ic.created_by = t.user_id WHERE t.depth < $2`
unfoldable pub next_round : ℕ → Edges → Rows → Rows
next_round limit edges [] = []
next_round limit edges ((member, depth) ∷ rows) =
    let rest = next_round limit edges rows in
    if ltb depth limit then rows_from member (depth + 1) edges ++ rest else rest

abbrev pub put_front : Rows → Option Rows → Option Rows
put_front round none = none
put_front round (some rows) = some (round ++ rows)

-- The recursive query from a first round, in at most `fuel` rounds.
unfoldable pub query : ℕ → ℕ → Edges → Rows → Option Rows
query fuel limit edges [] = some []
query zero limit edges (t ∷ rows) = none
query (suc fuel) limit edges (t ∷ rows) =
    put_front (t ∷ rows) (query fuel limit edges (next_round limit edges (t ∷ rows)))

abbrev pub InviteTree : Type 0
InviteTree = List (ℕ × (ℕ × ℕ))

-- How many a member brought in.
unfoldable pub invited : ℕ → Codes → ℕ
invited member rows = count_if (λ r. is_set r.used_by && (r.created_by == member)) rows

-- The join with `users`: a member without a row there is left out.
unfoldable pub joined : (ℕ → Bool) → Codes → Option Rows → Option InviteTree
joined is_user rows none = none
joined is_user rows (some found) =
    some (map (λ t. (t.0, (t.1, invited t.0 rows))) (keep (λ t. is_user t.0) found))

-- `InviteTree`: the member, the depth and how many that member invited.
unfoldable pub invite_tree : ℕ → (ℕ → Bool) → ℕ → Codes → Option InviteTree
invite_tree fuel is_user root rows =
    if root == 0
    then some []
    else (let edges = edges_of rows in
        joined is_user rows (query fuel invite_tree_depth edges (rows_from root 1 edges)))

-- The edges from the one who used a code to the one who issued it.
unfoldable pub upward : Edges → Edges
upward [] = []
upward ((from, to) ∷ edges) = (to, from) ∷ upward edges

-- `InviteUpline`
unfoldable pub invite_upline : ℕ → (ℕ → Bool) → ℕ → Codes → Option InviteTree
invite_upline fuel is_user user rows =
    if user == 0
    then some []
    else (let edges = upward (edges_of rows) in
        joined is_user rows (query fuel invite_tree_depth edges (rows_from user 1 edges)))

-- `count(DISTINCT member)`
unfoldable pub count_distinct : List ℕ → ℕ
count_distinct [] = 0
count_distinct (n ∷ ns) =
    let rest = count_distinct ns in if any (λ m. m == n) ns then rest else suc rest

-- `count(DISTINCT member) FILTER (WHERE depth = 1)` and `count(DISTINCT member)`
unfoldable pub counted : Option Rows → Option (ℕ × ℕ)
counted none = none
counted (some found) = some (
  count_distinct (map (λ t. t.0) (keep (λ t. t.1 == 1) found)),
  count_distinct (map (λ t. t.0) found),
)

-- `RecruitCounts`: those a member invited, and those in the chain below. A member's id of 0 has no
-- counts.
unfoldable pub recruit_counts : ℕ → ℕ → Codes → Option (ℕ × ℕ)
recruit_counts fuel user rows =
    if user == 0
    then none
    else (let edges = edges_of rows in
        counted (query fuel invite_tree_depth edges (rows_from user 1 edges)))

-- A member at the top, and a member below with the depth.
abbrev pub RankRows : Type 0
RankRows = List (ℕ × (ℕ × ℕ))

-- `SELECT created_by AS root, used_by AS descendant, 1 AS depth`
unfoldable pub rank_first : Edges → RankRows
rank_first [] = []
rank_first ((from, to) ∷ edges) = (from, (to, 1)) ∷ rank_first edges

-- The join of the ranking, which keeps the root.
unfoldable pub rank_next : ℕ → Edges → RankRows → RankRows
rank_next limit edges [] = []
rank_next limit edges ((root, (member, depth)) ∷ rows) =
    let rest = rank_next limit edges rows in
    if ltb depth limit
    then map (λ t. (root, t)) (rows_from member (depth + 1) edges) ++ rest
    else rest

abbrev pub put_rank_front : RankRows → Option RankRows → Option RankRows
put_rank_front round none = none
put_rank_front round (some rows) = some (round ++ rows)

-- The recursive query over all roots at once.
unfoldable pub rank_query : ℕ → ℕ → Edges → RankRows → Option RankRows
rank_query fuel limit edges [] = some []
rank_query zero limit edges (t ∷ rows) = none
rank_query (suc fuel) limit edges (t ∷ rows) =
    put_rank_front (t ∷ rows) (rank_query fuel limit edges (rank_next limit edges (t ∷ rows)))

-- The rows of one root.
abbrev pub rows_of_root : ℕ → RankRows → Rows
rows_of_root root rows = map (λ t. t.1) (keep (λ t. t.0 == root) rows)

abbrev pub count_pair : Rows → ℕ × ℕ
count_pair found = (
  count_distinct (map (λ t. t.0) (keep (λ t. t.1 == 1) found)),
  count_distinct (map (λ t. t.0) found),
)

-- `JOIN users u ON u.id = e.root GROUP BY u.id`: the root, its direct invites and its descendants.
unfoldable pub grouped : List ℕ → RankRows → InviteTree
grouped [] rows = []
grouped (user ∷ users) rows =
    let rest = grouped users rows in
    if any (λ t. t.0 == user) rows then (user, count_pair (rows_of_root user rows)) ∷ rest else rest

-- `ORDER BY descendants DESC, direct DESC, u.username`, with the database's order of the names.
unfoldable pub outranks : (ℕ → ℕ → Bool) → ℕ × (ℕ × ℕ) → ℕ × (ℕ × ℕ) → Bool
outranks name_before (a, (direct, below)) (b, (direct', below')) =
    if below == below'
    then (if direct == direct' then name_before a b else ltb direct' direct)
    else ltb below' below

unfoldable pub put_ranked : (ℕ → ℕ → Bool) → ℕ × (ℕ × ℕ) → InviteTree → InviteTree
put_ranked name_before t [] = t ∷ []
put_ranked name_before t (u ∷ rows) =
    let rest = put_ranked name_before t rows in
    if outranks name_before u t then u ∷ rest else t ∷ (u ∷ rows)

unfoldable pub ordered : (ℕ → ℕ → Bool) → InviteTree → InviteTree
ordered name_before [] = []
ordered name_before (t ∷ rows) = put_ranked name_before t (ordered name_before rows)

-- `LIMIT $1`
unfoldable pub limited : ℕ → InviteTree → InviteTree
limited n [] = []
limited n (t ∷ rows) = if n == 0 then [] else t ∷ limited (n - 1) rows

-- A limit that is not positive is 0 here.
unfoldable pub ranking_limit : ℕ → ℕ
ranking_limit limit = if (limit == 0) || ltb 200 limit then 25 else limit

unfoldable pub ranked : (ℕ → ℕ → Bool) → List ℕ → ℕ → Option RankRows → Option InviteTree
ranked name_before users limit none = none
ranked name_before users limit (some rows) =
    some (limited (ranking_limit limit) (ordered name_before (grouped users rows)))

-- `TopRecruiters`, of the members with an account.
unfoldable pub top_recruiters : ℕ → (ℕ → ℕ → Bool) → List ℕ → ℕ → Codes → Option InviteTree
top_recruiters fuel name_before users limit rows =
    let edges = edges_of rows in
    ranked name_before users limit (rank_query fuel invite_tree_depth edges (rank_first edges))
