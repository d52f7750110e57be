-- ===== src/Tests/Removing.antt =====
-- Server 0 removes the partitions of a directory on two servers.
use skyefs.Prelude.{ℕ, ◌+◌, ◌≡◌, refl, arith, List, [], ◌∷◌, map, true, none, some, Option, ok}
use skyefs.Rpc.{ObjectRef, Credentials, Call, returned}
use skyefs.Giga.Mapping.{GigaMapping}
use skyefs.Giga.Mapping.Invariant.{usable}
use skyefs.Server.Directory.{SkyeDirectory, Pvfs}
use skyefs.Server.Handlers.{Setup}
use skyefs.Server.Handlers.Remove.{remove_all_buckets}
use skyefs.Server.Handlers.Clearing.{member, IsClearing, IsCleared, remove_all_buckets_lem}
use skyefs.Tests.{grown, grown-IsValid}
use skyefs.Tests.Serving.{pvfs, user, splitting}

abbrev second : List ℕ → Option ℕ
second [] = none
second (c ∷ []) = none
second (c ∷ i ∷ rest) = some i

-- PVFS lists partition 0 of server 0 and partition 1 of server 1.
abbrev listing : Pvfs ℕ
listing = record pvfs {
  sys_remove = λ creds a b w. (0, w + 1);
  readdir = λ handle token count w. (some (map pvfs.partition_name (0 ∷ 1 ∷ [])), w + 1);
  sscanf_index = second;
}

abbrev whole : SkyeDirectory
whole = record splitting { mapping = grown; splitting_index = none }

abbrev setup : Setup
setup = record { servernum = 1; servercount = 2; memory = true; lockable = true; rounds = 3 }

abbrev tell : ℕ → Credentials → ObjectRef → ℕ → ℕ → Call ℕ × ℕ
tell s creds h i w = (returned 0, w + 1)

clears : IsClearing setup listing tell user
clears = record { scans = λ i. refl; removes = λ name h w. refl; tells = λ s h i w. refl }

remove_all_buckets_example :
    (m : GigaMapping) × (w' : ℕ) × (remove_all_buckets setup listing 0 tell 1 0 user whole 0
      ≡ ok (0, record whole { mapping = m }, w'))
    × IsCleared 1 grown (0 ∷ 1 ∷ []) m
unfolding member
remove_all_buckets_example =
    remove_all_buckets_lem setup listing 0 clears 0 (0 ∷ 1 ∷ []) whole 0 (usable grown-IsValid)
      (omega arith) (λ j h. ground (arith, h)) refl (omega arith)
