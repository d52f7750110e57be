-- ===== src/Tests/Splitting.antt =====
-- A client that starts with a new table while server 0 splits the directory to server 1.
use skyefs.Prelude.{
  ℕ, Bool, zero, suc, ◌<◌, ◌≡◌, ◌≢◌, ◌==◌, ◌⊎◌, ==_iff, Bool-cases, inl, inr, if◌then◌else◌, refl,
  ap, sym, ◌∙◌, arith, true, false, some, none, ok,
}
use mathlib.Core.Path.{subst}
use skyefs.Giga.Mapping.{
  GigaMapping, giga_init_mapping, giga_get_server_for_index, giga_update_mapping,
}
use skyefs.Giga.Mapping.Invariant.{partitions, usable}
use skyefs.Giga.Init.{giga_init_mapping-IsValid}
use skyefs.Giga.Update.{giga_update_mapping_lem}
use skyefs.Client.Retry.Ends.{IsTableOf, known_later}
use skyefs.Cluster.{
  Cluster, Split, put, add, start, SplitSteps, IsLoaded, load_directory, begin, announce,
  finish_told, here, next,
}
use skyefs.Cluster.Consistent.{IsConsistent, waiting}
use skyefs.Cluster.Asking.{IsRedirect, IsCurrent, Reached, ask_returns-SplitSteps}
use skyefs.Server.Bucket.{enter_bucket, redirect}
use skyefs.Server.Directory.{SkyeDirectory}
use skyefs.Client.Retry.{Answer, again, final, ask}
use skyefs.Cluster.Steps.{SplitSteps-IsConsistent, SplitSteps-grows}
use skyefs.Cluster.Family.{HasChildren}
use skyefs.Cluster.Children.{SplitSteps-HasChildren, SplitSteps_new}
use skyefs.Cluster.Routing.{SplitSteps-routes}
use skyefs.Giga.Index.{
  giga_get_index_for_file, giga_get_server_for_file, giga_file_migration_status,
}
use skyefs.Giga.Hash.Suffix.{number}
use skyefs.Giga.Tree.{locate}
use skyefs.Tests.{
  giga, toy_sha, name, name-IsDigest, fresh, grown, fresh-IsValid, grown-IsValid, root_exists,
  splits_to_one, grows,
}
use skyefs.Tests.Serving.{pvfs, user, directory, splitting, at_server}

abbrev at_one : Bool → Split
at_one told = record { cindex = 1; told = told }

-- Server 0 loads the directory and splits it; server 1 loads it before the announcement, with
-- partition 1.
abbrev loaded : Cluster
loaded = record (start 0 2) {
  tables = put (start 0 2).tables 0 fresh;
  loaded = put (start 0 2).loaded 0 true;
}

abbrev begun : Cluster
begun = record loaded { splits = put loaded.splits 0 (some (at_one false)); all = add loaded.all 1 }

abbrev both : Cluster
both = record begun { tables = put begun.tables 1 grown; loaded = put begun.loaded 1 true }

abbrev announced : Cluster
announced = record both {
  tables = put both.tables 1 grown;
  splits = put both.splits 0 (some (at_one true));
}

abbrev pub finished : Cluster
finished = record announced {
  tables = put announced.tables 0 grown;
  splits = put announced.splits 0 none;
}

server_of_one : giga_get_server_for_index fresh 1 ≡ ok 1
unfolding giga
server_of_one = refl

first_load : IsLoaded (start 0 2).all ((start 0 2).tables 0) fresh
unfolding start
first_load = record {
  usable = usable fresh-IsValid;
  listed = (giga_init_mapping-IsValid 0 2).1;
  same = (refl, refl);
}

ok-injective : {a b : GigaMapping} → ok a ≡ ok b → a ≡ b
ok-injective e = cc

-- The table with partition 1 has 0 and 1.
grown_listed : (i : ℕ) → partitions grown i ≡ add (λ i. 0 == i) 1 i
unfolding add
grown_listed i =
    let (m', e, b, adds, same) = giga_update_mapping_lem (usable fresh-IsValid) 1 (omega arith) in
    let q : m' ≡ grown = ok-injective (sym e ∙ grows) in
    ap (λ m. partitions m i) (sym q) ∙ ground (arith, adds i, (giga_init_mapping-IsValid 0 2).1 i)

grown_again : giga_update_mapping grown 1 ≡ ok grown
unfolding giga
grown_again = refl

late_load : IsLoaded begun.all (begun.tables 1) grown
unfolding start put giga_init_mapping
late_load = record { usable = usable grown-IsValid; listed = grown_listed; same = (refl, refl) }

begun_run : SplitSteps (start 0 2) begun
unfolding start put giga
begun_run =
    next (next here (load_directory 0 fresh refl first_load refl))
      (begin 0 0 1 refl refl root_exists at_server splits_to_one refl)

half_run : SplitSteps (start 0 2) announced
unfolding start put giga
half_run =
    next (next begun_run (load_directory 1 grown refl late_load refl))
      (announce 0 1 1 grown refl server_of_one (omega arith) refl grown_again refl)

pub split_run : SplitSteps (start 0 2) finished
unfolding put start giga
split_run = next half_run (finish_told 0 1 grown refl grows refl)

pub finished_small : (i : ℕ) → finished.all i ≡ true → i < 512
unfolding add start
finished_small i h = ground (arith, h)

pub new_table : IsTableOf finished.all 0 2 fresh
unfolding start
new_table =
    known_later (SplitSteps-grows split_run) ((SplitSteps-IsConsistent (omega arith) here).table 0)

-- A world in which the first call makes the split, and server 1 loads the directory meanwhile.
abbrev view : ℕ → Cluster
view zero = loaded
view (suc w) = finished

load_run : SplitSteps (start 0 2) loaded
unfolding start
load_run = next here (load_directory 0 fresh refl first_load refl)

view_run : (w : ℕ) → SplitSteps (start 0 2) (view w)
view_run zero = load_run
view_run (suc w) = split_run

abbrev current : ℕ → ℕ → GigaMapping
current zero s = fresh
current (suc w) s = grown

pub rests : (s : ℕ) → finished.splits s ≡ none
unfolding put start
rests s = elim (Bool-cases (0 == s)) [ inl at_0 ↦ rw at_0 refl | inr other ↦ rw other refl ]

calm : (w u c : ℕ) → Reached 0 2 view w → (view w).splits u ≢ waiting c
unfolding start
calm zero u c r e = let busy : none ≡ waiting c = e in cc
calm (suc w) u c r e = let idle = rests u in let busy : none ≡ waiting c = sym idle ∙ e in cc

-- Servers that have not loaded the directory.
before_split :
    (s : ℕ) → ((view 0).loaded (suc s) ≡ false) × ((view 0).tables (suc s) ≡ giga_init_mapping 0 2)
unfolding start put
before_split s = (ground arith, ground arith)

after_split :
    (s : ℕ)
    → (finished.loaded (suc (suc s)) ≡ false)
      × (finished.tables (suc (suc s)) ≡ giga_init_mapping 0 2)
unfolding start put
after_split s = (ground arith, ground arith)

answers_by : (w s : ℕ) → Reached 0 2 view w → IsCurrent (view w) s (current w s)
unfolding put start
answers_by zero zero r = inl (refl, refl)
answers_by zero (suc s) r =
    let (new, table) = before_split s in
    inr (new, subst (λ m. IsLoaded (view 0).all m fresh) (sym table) first_load)
answers_by (suc w) zero r = inl (refl, refl)
answers_by (suc w) (suc zero) r = inl (refl, refl)
answers_by (suc w) (suc (suc s)) r =
    let (new, table) = after_split s in
    inr (new, subst (λ m. IsLoaded finished.all m grown) (sym table) late_load)

abbrev reply : ℕ → Answer ℕ
reply s = if s == 0 then again grown else final 7

-- Before the split server 0 has the name, and afterwards it sends its table.
abbrev stub : ℕ → ℕ → Answer ℕ × ℕ
stub s zero = (final 7, 1)
stub s (suc w) = (reply s, suc (suc w))

-- Server 0 after the split.
abbrev split_dir : SkyeDirectory
split_dir = record splitting { mapping = grown; splitting_index = none }

sends_table :
    enter_bucket toy_sha 0 pvfs user split_dir name directory 0 ≡ ok (redirect grown, split_dir, 0)
unfolding giga enter_bucket
sends_table = refl

from_server_0 : (s : ℕ) (t : GigaMapping) → reply s ≡ again t → (t ≡ grown) × (s ≡ 0)
from_server_0 s t e = elim (Bool-cases (s == 0)) [
  | inl same ↦ (ground (arith, same), (==_iff s 0).0 same)
  | inr other ↦ absurd (ground (arith, other))
]

answers :
    (s w : ℕ) (t : GigaMapping)
    → Reached 0 2 view w
    → (stub s w).0 ≡ again t
    → IsRedirect toy_sha pvfs name s (current w s) t
answers s zero t r e = cc
answers s (suc w) t r e =
    let (same, at_0) = from_server_0 s t e in
    rw (same, at_0) (split_dir, user, directory, 0, split_dir, 0, refl, sends_table)

view_small : (w i : ℕ) → Reached 0 2 view w → (view w).all i ≡ true → i < 512
unfolding start
view_small zero i r h = ground (arith, h)
view_small (suc w) i r h = finished_small i h

moves : (s w : ℕ) → Reached 0 2 view w → SplitSteps (view w) (view (stub s w).1)
unfolding start put giga
moves s zero r =
    next
      (next
        (next (next here (begin 0 0 1 refl refl root_exists at_server splits_to_one refl))
          (load_directory 1 grown refl late_load refl))
        (announce 0 1 1 grown refl server_of_one (omega arith) refl grown_again refl))
      (finish_told 0 1 grown refl grows refl)
moves s (suc w) r = here

asks_example :
    (a : ℕ) × (m' : GigaMapping) × (w' : ℕ) × (ask toy_sha 2 stub 10 name fresh 1 ≡ ok (a, m', w'))
    × Reached 0 2 view w'
    × IsTableOf (view w').all 0 2 m'
    × ((s : ℕ) × (v : ℕ) × (s < 2) × Reached 0 2 view v × (stub s v ≡ (final a, w')))
asks_example =
    ask_returns-SplitSteps toy_sha pvfs stub name view current 0 2 name-IsDigest (omega arith) moves
      view_small calm answers_by answers fresh 1 (view_run 1) new_table

run_example : IsConsistent 0 2 finished
run_example = SplitSteps-IsConsistent (omega arith) split_run

children_example : HasChildren 0 2 finished
children_example = SplitSteps-HasChildren (omega arith) split_run

-- Server 0 has told server 1, but its table still puts the name on server 0.
name_at_server : giga_get_server_for_file toy_sha (announced.tables 0) name ≡ ok 0
unfolding giga start put
name_at_server = refl

routes_example :
    (giga_get_index_for_file toy_sha (announced.tables 0) name
      ≡ ok (locate announced.all 9 (number (toy_sha name))))
    ⊎ ((c : ℕ) × (told : Bool) × (announced.splits 0 ≡ some (record { cindex = c; told = told }))
        × (announced.all c ≡ true)
        × (giga_file_migration_status toy_sha name c ≡ ok true))
unfolding put
routes_example =
    SplitSteps-routes 0 (omega arith) half_run finished_small toy_sha name name-IsDigest 0 refl
      name_at_server

new_example : (loaded.all 0 ≡ true) × (loaded.all 1 ≡ false)
unfolding start put giga
new_example =
    SplitSteps_new 0 {count = 2} 0 0 1 (omega arith)
      (next here (load_directory 0 fresh refl first_load refl)) refl refl root_exists at_server
      splits_to_one
