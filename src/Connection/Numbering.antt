-- ===== src/Connection/Numbering.antt =====
-- common/connection.c: the names of the servers, and which of them is our own.
use mathlib.Core.List.{append_assoc}
use skyefs.Prelude.Strings.{same_name, same_name_lem, same_name_refl}
use skyefs.Prelude.{
  ℕ, zero, suc, ◌+◌, ◌-◌, ◌≡◌, refl, sym, ap, ◌∙◌, arith, List, [], ◌∷◌, ◌++◌, length, take, drop,
  get_elem?, Bool, true, false, ◌||◌, lt→ltb, ◌==◌, if◌then◌else◌, Bool-cases, ◌⊎◌, inl, inr,
  Option, none, some, ok, length-append,
}
use skyefs.Connection.Spec.{slash}
use skyefs.Connection.Servers.{
  colon, rindex, host_of, name_servers, ServerList, pvfs_generate_serverlist,
}

unfoldable pub has_char : ℕ → List ℕ → Bool
has_char c [] = false
has_char c (a ∷ s) = a == c || has_char c s

rindex-none : (c i : ℕ) (s : List ℕ) → has_char c s ≡ false → rindex c i s ≡ none
unfolding rindex has_char
rindex-none c i [] h = refl
rindex-none c i (a ∷ s) h =
    let e : (a == c) ≡ false = ground (arith, h) in
    rw (rindex, rindex-none c (i + 1) s (ground (arith, h)), e) refl

rindex-append :
    (c i : ℕ) (a b : List ℕ) → has_char c b ≡ false → rindex c i (a ++ c ∷ b) ≡ some (i + length a)
unfolding rindex
rindex-append c i [] b h =
    let e : (c == c) ≡ true = ground arith in
    rw (rindex, rindex-none c (i + 1) b h, e) (ap some (omega arith))
rindex-append c i (x ∷ a) b h = rw (rindex, rindex-append c (i + 1) a b h) (ap some (omega arith))

drop-append : (a : List ℕ) (c : ℕ) (b : List ℕ) → drop (length a + 1) (a ++ c ∷ b) ≡ b
drop-append [] c b = refl
drop-append (x ∷ a) c b =
    let e : suc (length a) + 1 ≡ suc (length a + 1) = omega arith in rw e (drop-append a c b)

take-append : (a b : List ℕ) → take (length a) (a ++ b) ≡ a
take-append [] b = refl
take-append (x ∷ a) b = ap (◌∷◌ x) (take-append a b)

-- tcp://host:port
pub record IsAddressOf (addr host : List ℕ) : Type 0 where
  pub scheme : List ℕ
  pub port : List ℕ
  pub whole : addr ≡ scheme ++ slash ∷ (host ++ colon ∷ port)
  pub one_slash : has_char slash (host ++ colon ∷ port) ≡ false
  pub one_colon : has_char colon port ≡ false

host_of_lem : {addr host : List ℕ} → IsAddressOf addr host → host_of addr ≡ ok host
unfolding host_of
host_of_lem {addr} {host} a =
    let before = a.scheme ++ slash ∷ host in
    let again : before ++ colon ∷ a.port ≡ addr =
      append_assoc a.scheme (slash ∷ host) (colon ∷ a.port) ∙ sym a.whole in
    let len : length before ≡ length a.scheme + 1 + length host =
      length-append a.scheme (slash ∷ host) ∙ omega arith in
    let zero_b : 0 + length before ≡ length before = omega arith in
    let zero_a : 0 + length a.scheme ≡ length a.scheme = omega arith in
    let size : length before - length a.scheme - 1 ≡ length host = omega (arith, len) in
    rw
      (
        host_of,
        ap (rindex colon 0) (sym again)
            ∙ rindex-append colon 0 before a.port a.one_colon
            ∙ ap some zero_b,
        ap (rindex slash 0) a.whole
            ∙ rindex-append slash 0 a.scheme (host ++ colon ∷ a.port) a.one_slash
            ∙ ap some zero_a,
        lt→ltb (length a.scheme) (length before) (omega (arith, len)),
        size,
        ap (drop (length a.scheme + 1)) a.whole
            ∙ drop-append a.scheme slash (host ++ colon ∷ a.port),
        take-append host (colon ∷ a.port),
      )
      refl

unfoldable pub AreAddressed : (ℕ → List ℕ) → List ℕ → List (List ℕ) → Type 0
AreAddressed map_addr [] [] = Unit {0}
AreAddressed map_addr [] (host ∷ hosts) = ⊥
AreAddressed map_addr (a ∷ addrs) [] = ⊥
AreAddressed map_addr (a ∷ addrs) (host ∷ hosts) =
    IsAddressOf (map_addr a) host × AreAddressed map_addr addrs hosts

-- The place of a name among the hosts, or `none` if it is no host.
unfoldable pub IsPlaceOf : List ℕ → List (List ℕ) → Option ℕ → Type 0
IsPlaceOf name hosts (some k) = get_elem? hosts k ≡ some name
IsPlaceOf name hosts none = (k : ℕ) → ¬ (get_elem? hosts k ≡ some name)

-- The number after the loop: the one before, if the name is no host, or a place from i on.
Numbered : List ℕ → List (List ℕ) → ℕ → Option ℕ → Option ℕ → Type 0
Numbered name hosts i old num =
    ((num ≡ old) × ((k : ℕ) → ¬ (get_elem? hosts k ≡ some name)))
    ⊎ ((k : ℕ) × (num ≡ some (i + k)) × (get_elem? hosts k ≡ some name))

module _ (map_addr : ℕ → List ℕ) (name : List ℕ) where
  not_here :
      (host : List ℕ) (hosts : List (List ℕ))
      → same_name host name ≡ false
      → ((k : ℕ) → ¬ (get_elem? hosts k ≡ some name))
      → (k : ℕ) → ¬ (get_elem? (host ∷ hosts) k ≡ some name)
  not_here host hosts other no_place zero e =
      let same : host ≡ name = cc in
      let yes_same : same_name host name ≡ true = rw same (same_name_refl name) in cc
  not_here host hosts other no_place (suc k) e = no_place k e

  Numbered-cons :
      (host : List ℕ) (hosts : List (List ℕ)) (i : ℕ) (old num : Option ℕ)
      → Numbered name hosts (i + 1) (if same_name host name then some i else old) num
      → Numbered name (host ∷ hosts) i old num
  unfolding Numbered
  Numbered-cons host hosts i old num (inr (k, e, at)) =
      let shift : i + 1 + k ≡ i + suc k = omega arith in inr (suc k, e ∙ ap some shift, at)
  Numbered-cons host hosts i old num (inl (e, no_place)) = elim (Bool-cases (same_name host name)) [
    | inl same ↦
        let zero_i : i ≡ i + 0 = omega arith in
        let mine : (if same_name host name then some i else old) ≡ some i = rw same refl in
        inr (0, e ∙ mine ∙ ap some zero_i, ap some (same_name_lem host name same))
    | inr other ↦
        let kept : (if same_name host name then some i else old) ≡ old = rw other refl in
        inl (e ∙ kept, not_here host hosts other no_place)
  ]

  name_servers_lem :
      (addrs : List ℕ) (hosts : List (List ℕ)) (i : ℕ) (old : Option ℕ)
      → AreAddressed map_addr addrs hosts
      → (num : Option ℕ) × (name_servers map_addr name i addrs old ≡ ok (hosts, num))
        × Numbered name hosts i old num
  unfolding name_servers AreAddressed Numbered
  name_servers_lem [] [] i old all = (old, refl, inl (refl, λ k e. cc))
  name_servers_lem [] (host ∷ hosts) i old all = absurd all
  name_servers_lem (a ∷ addrs) [] i old all = absurd all
  name_servers_lem (a ∷ addrs) (host ∷ hosts) i old all =
      let new : Option ℕ = (if same_name host name then some i else old) in
      let (num, e, r) = name_servers_lem addrs hosts (i + 1) new all.1 in
      (num, rw (host_of_lem all.0, e) refl, Numbered-cons host hosts i old num r)

  -- The first number is -1.
  first_place :
      (hosts : List (List ℕ)) (num : Option ℕ)
      → Numbered name hosts 0 none num
      → IsPlaceOf name hosts num
  unfolding Numbered IsPlaceOf
  first_place hosts none (inl (f, no_place)) = no_place
  first_place hosts none (inr (k, f, at)) = cc
  first_place hosts (some j) (inl (f, no_place)) = cc
  first_place hosts (some j) (inr (k, f, at)) = let z : 0 + k ≡ k = omega arith in cc

  -- If each address of the servers is some text, a slash, a host, a colon and a port, without a
  -- slash after this one and a colon after that one, pvfs_generate_serverlist returns, without a
  -- fault, a list of the hosts in order, their number, and as servernum a place where the host is
  -- our own name, or -1 if there is none.
  pub pvfs_generate_serverlist_lem :
      (addrs : List ℕ) (hosts : List (List ℕ))
      → AreAddressed map_addr addrs hosts
      → (servers : ServerList) × (pvfs_generate_serverlist map_addr name addrs ≡ ok servers)
        × (servers.serverlist ≡ hosts)
        × (servers.servercount ≡ length addrs)
        × IsPlaceOf name hosts servers.servernum
  unfolding pvfs_generate_serverlist IsPlaceOf Numbered
  pvfs_generate_serverlist_lem addrs hosts all =
      let (num, e, r) = name_servers_lem addrs hosts 0 none all in
      (
        record {
          servernum = num;
          servercount = length addrs;
          serverlist = hosts;
          serveraddrs = addrs;
        },
        rw e refl,
        refl,
        refl,
        first_place hosts num r,
      )
