-- ===== src/Client/Files/Windows.antt =====
-- client/operations.c: a directory read window by window, as the kernel reads it after opendir.
use native.Mathlib.Nat.{mod-eq_of_lt, add-mod_right}
use skyefs.Prelude.{
  ℕ, zero, suc, ◌+◌, ◌-◌, ◌%◌, ◌^◌, ◌≤◌, ◌<◌, ◌≡◌, refl, ap, ◌∙◌, sym, arith, min, List, [], ◌∷◌,
  ◌++◌, length, take, drop, Bool-cases, inl, inr, leb, true, false, Outcome, ok, fault,
  out_of_rounds, ◌>>=◌, length-take, length-drop, take-append-drop, drop_above, drop-drop,
}
use skyefs.Client.Files.Listing.{skye_ll_readdir}

-- The bytes of the replies.
abbrev pub joined : List (List ℕ) → List ℕ
joined [] = []
joined (reply ∷ replies) = reply ++ joined replies

-- Every reply from an offset on has some bytes, and no more than were asked for there.
abbrev pub AreWindows : (ℕ → ℕ) → ℕ → List (List ℕ) → Type 0
AreWindows size offset [] = Unit {0}
AreWindows size offset (reply ∷ replies) =
    (0 < length reply)
    × (length reply ≤ size offset)
    × AreWindows size (offset + length reply) replies

-- An empty reply is the last.
unfoldable pub and_rest : List ℕ → Outcome (List (List ℕ)) → Outcome (List (List ℕ))
and_rest [] rest = ok []
and_rest (b ∷ bytes) rest = rest >>= λ replies. ok ((b ∷ bytes) ∷ replies)

and_rest-ok :
    (reply : List ℕ) (replies : List (List ℕ))
    → 0 < length reply
    → and_rest reply (ok replies) ≡ ok (reply ∷ replies)
unfolding and_rest
and_rest-ok [] replies h = elim h [ ]
and_rest-ok (b ∷ bytes) replies h = refl

module _ (size : ℕ → ℕ) (buf : List ℕ) where
  -- Reads until a reply is empty; the size of a read may depend on its offset.
  unfoldable pub read_all : (fuel : ℕ) → ℕ → Outcome (List (List ℕ))
  unfolding and_rest
  read_all zero offset = fault out_of_rounds
  read_all (suc f) offset = skye_ll_readdir buf (size offset) offset >>= λ reply.
      and_rest reply (read_all f (offset + length reply))

  module _ (some_size : (offset : ℕ) → 0 < size offset) (fits : length buf < 2 ^ 63) where
    no_wrap :
        (offset : ℕ)
        → leb (length buf) offset ≡ false
        → (length buf + (2 ^ 64 - offset)) % 2 ^ 64 ≡ length buf - offset
    no_wrap offset before =
        let past : offset < length buf = ground (arith, before) in
        let e : length buf + (2 ^ 64 - offset) ≡ length buf - offset + 2 ^ 64 =
          omega (arith, past, fits) in
        ap (λ n. n % 2 ^ 64) e
        ∙ add-mod_right (length buf - offset) (2 ^ 64)
        ∙ mod-eq_of_lt (omega (arith, fits))

    -- A reply before the end of the buffer.
    record IsWindow (offset : ℕ) (reply : List ℕ) : Type 0 where
      ran : skye_ll_readdir buf (size offset) offset ≡ ok reply
      some_bytes : 0 < length reply
      asked : length reply ≤ size offset
      split : reply ++ drop (offset + length reply) buf ≡ drop offset buf

    window :
        (offset : ℕ) → leb (length buf) offset ≡ false → (reply : List ℕ) × IsWindow offset reply
    unfolding skye_ll_readdir
    window offset before =
        let n = min (length buf - offset) (size offset) in
        let inside : leb (offset + n) (length buf) ≡ true = ground (arith, before) in
        let some_n : 0 < n = ground (arith, before, some_size offset) in
        let size_n : length (take n (drop offset buf)) ≡ n =
          omega (arith, length-take n (drop offset buf), length-drop offset buf) in
        (
          take n (drop offset buf),
          record {
            ran = rw (before, no_wrap offset before, inside) refl;
            some_bytes = omega (arith, size_n, some_n);
            asked = omega (arith, size_n);
            split =
                ap (λ k. take n (drop offset buf) ++ drop (offset + k) buf) size_n
                ∙ ap (◌++◌ (take n (drop offset buf))) (sym (drop-drop offset n buf))
                ∙ take-append-drop n (drop offset buf);
          },
        )

    -- What is read from an offset on.
    record IsRead (f offset : ℕ) (replies : List (List ℕ)) : Type 0 where
      returns : read_all f offset ≡ ok replies
      rest : joined replies ≡ drop offset buf
      windows : AreWindows size offset replies

    IsRead-next :
        (f offset : ℕ) (reply : List ℕ) (replies : List (List ℕ))
        → IsWindow offset reply
        → IsRead f (offset + length reply) replies
        → IsRead (suc f) offset (reply ∷ replies)
    unfolding read_all
    IsRead-next f offset reply replies w r = record {
      returns = rw (read_all, w.ran, r.returns) (and_rest-ok reply replies w.some_bytes);
      rest = ap (◌++◌ reply) r.rest ∙ w.split;
      windows = (w.some_bytes, w.asked, r.windows);
    }

    IsRead-from :
        (f offset : ℕ)
        → length buf < offset + f
        → 0 < f
        → (replies : List (List ℕ)) × IsRead f offset replies
    unfolding read_all skye_ll_readdir and_rest
    IsRead-from zero offset enough some_rounds = elim some_rounds [ ]
    IsRead-from (suc f) offset enough some_rounds = elim (Bool-cases (leb (length buf) offset)) [
      | inl past ↦ (
        [],
        record {
          returns = rw (read_all, past) refl;
          rest = sym (drop_above offset buf (ground (arith, past)));
          windows = tt;
        },
      )
      | inr before ↦
          let (reply, w) = window offset before in
          let before_end : offset < length buf = ground (arith, before) in
          let (replies, r) =
            IsRead-from f (offset + length reply) (omega (arith, enough, w.some_bytes))
              (omega (arith, enough, before_end)) in
          (reply ∷ replies, IsRead-next f offset reply replies w r)
    ]

    -- If every read asks for some bytes, the buffer has fewer than 2 ^ 63 bytes, and there are
    -- more rounds than bytes, reading with skye_ll_readdir from offset 0, each time from where
    -- the last reply ended, until a reply is empty, ends without a read past the end of the
    -- buffer; every reply before the empty one has some bytes and no more than were asked for,
    -- and together they are the bytes of the buffer.
    pub read_all_lem :
        (f : ℕ)
        → length buf < f
        → (replies : List (List ℕ)) × (read_all f 0 ≡ ok replies)
          × (joined replies ≡ buf)
          × AreWindows size 0 replies
    read_all_lem f enough =
        let (replies, r) = IsRead-from f 0 (omega (arith, enough)) (omega (arith, enough)) in
        (replies, r.returns, r.rest, r.windows)
