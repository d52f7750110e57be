-- ===== src/System/Calls.antt =====
-- client/operations.c and server/handlers.c together: calls that a server answers by its own table,
-- while the directory rests.
use mathlib.Core.Path.{subst}
use skyefs.Prelude.{
  ℕ, ◌<◌, ◌≡◌, ◌≢◌, ap, sym, ◌∙◌, arith, Bool-cases, inl, inr, ◌==◌, ==_iff, if◌then◌else◌, List,
  ok,
}
use skyefs.Giga.Mapping.{GigaMapping, giga_get_server_for_index}
use skyefs.Giga.Hash.RoundTrip.{IsDigest}
use skyefs.Giga.Index.{giga_get_server_for_file}
use skyefs.Client.Retry.{Answer, again, final}
use skyefs.Client.Retry.Ends.{IsCluster}
use skyefs.Cluster.{Cluster}
use skyefs.System.Resting.{IsResting, table, owned, place, server_at, ok-injective}

-- The value if the table puts the name on server s, or else the table.
abbrev pub answer_at : {A : Type 0} → ℕ → ℕ → GigaMapping → A → Answer A
answer_at s t m value = if t == s then final value else again m

final-injective : {A : Type 0} {a b : A} → final a ≡ final b → a ≡ b
final-injective e = cc

again-injective : {A : Type 0} {a b : GigaMapping} → ◌≡◌ {A = Answer A} (again a) (again b) → a ≡ b
again-injective e = cc

answer_at-final :
    {A : Type 0} (s t : ℕ) (m : GigaMapping) (value : A) {a : A}
    → answer_at s t m value ≡ final a
    → (t ≡ s) × (a ≡ value)
answer_at-final s t m value e = elim (Bool-cases (t == s)) [
  | inl mine ↦ ((==_iff t s).0 mine, sym (final-injective (rw mine at e)))
  | inr other ↦ let f = (rw other at e) in cc
]

answer_at-again :
    {A : Type 0} (s t : ℕ) (m : GigaMapping) (value : A) {u : GigaMapping}
    → answer_at s t m value ≡ again u
    → (t ≢ s) × (u ≡ m)
answer_at-again s t m value e = elim (Bool-cases (t == s)) [
  | inl mine ↦ let f = (rw mine at e) in cc
  | inr other ↦ (λ same. ground (arith, other, same), sym (again-injective (rw other at e)))
]

module _ {W A : Type 0} {first count : ℕ} {σ : Cluster} (q : IsResting first count σ)
    (shahash : List ℕ → List ℕ) (name : List ℕ) (d : IsDigest (shahash name))
    (stub : ℕ → W → Answer A × W) (good : W → Type 0) (result : A → W → Type 0) where
  -- A call of server s: it answers by its table, which changes nothing that is good, or with a result.
  pub record IsServed (s : ℕ) (w : W) : Type 0 where
    pub there : ℕ
    pub at : giga_get_server_for_index (σ.tables s) (place q shahash name d s) ≡ ok there
    pub value : A
    pub next : W
    pub answer : stub s w ≡ (answer_at s there (σ.tables s) value, next)
    pub kept : there ≢ s → good next
    pub done : there ≡ s → result value next

  module _ (serves : (s : ℕ) (w : W) → good w → s < count → IsServed s w) where
    redirected :
        (s : ℕ) (w : W) {t : GigaMapping} (g : good w) (lt : s < count)
        → (stub s w).0 ≡ again t
        → ((serves s w g lt).there ≢ s) × (t ≡ σ.tables s)
    redirected s w g lt e =
        let v = serves s w g lt in
        answer_at-again s v.there (σ.tables s) v.value
          (sym (ap (λ (x : Answer A × W). x.0) v.answer) ∙ e)

    pub cluster : IsCluster shahash stub name good (λ w. σ.all) first count (λ w s. σ.tables s)
    cluster = record {
      kept = λ s w t g lt e.
          let v = serves s w g lt in
          subst good (sym (ap (λ (x : Answer A × W). x.1) v.answer))
            (v.kept (redirected s w g lt e).0);
      small = λ w i g. q.small i;
      table = λ w s g. table q s;
      owned = λ w s i g. owned q s i;
      grows = λ s w i g there. there;
      redirects = λ s w t g lt e.
          let (away, same) = redirected s w g lt e in
          (
            same,
            λ here. away (
                ok-injective (
                  sym (server_at q shahash name d s (serves s w g lt).at)
                  ∙ ap (λ u. giga_get_server_for_file shahash u name) (sym same)
                  ∙ here)),
          );
    }

    pub final_reply :
        (s : ℕ) (w : W) {a : A} {next : W}
        → good w
        → s < count
        → stub s w ≡ (final a, next)
        → result a next
    final_reply s w {a} {next} g lt e =
        let v = serves s w g lt in
        let (mine, same) =
          answer_at-final s v.there (σ.tables s) v.value
            (ap (λ (x : Answer A × W). x.0) (sym v.answer ∙ e)) in
        subst (λ b. result b next) (sym same)
          (subst (result v.value) (ap (λ (x : Answer A × W). x.1) (sym v.answer ∙ e)) (v.done mine))
