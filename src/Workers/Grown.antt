-- ===== src/Workers/Grown.antt =====
-- How the log grows by the calls of tasks.
use async_wal_db.Prelude.{
  ◌≡◌, sym, ap, ◌∙◌, arith, List, [], ◌∷◌, ◌++◌, Bool, true, false, ◌||◌, All, All-append,
  any_of-append, Bool-cases, inl, inr,
}
use mathlib.Core.Path.{subst}
use mathlib.Core.List.{append-nil, append_assoc}
use async_wal_db.Entry.{Bytes, WalEntry}
use async_wal_db.Workers.{Worker}
use async_wal_db.Workers.Values.{sets, sets_any, any_will_set}
use async_wal_db.Workers.Logged.{IsPlain, InLog, InLog-append, IsLogged, IsLogged-append}

-- `more` is appended. `before` and `after` tell which keys are still to be set; what holds of the log
-- by then is `L` and `L'`.
pub record Grown (value : Bytes → Bytes) (old total : List WalEntry) (before after : Bytes → Bool)
    (L L' : Type 0) : Type 0 where
  pub more : List WalEntry
  pub extends : total ≡ old ++ more
  pub plain : All (IsPlain value) more
  pub no_others : (k : Bytes) → sets_any k more ≡ true → before k ≡ true
  pub fewer : (k : Bytes) → after k ≡ true → before k ≡ true
  pub logged : L → L'
  pub committed : (k : Bytes) → L → before k ≡ true → after k ≡ false → InLog total k

module _ {value : Bytes → Bytes} where
  -- Nothing is appended, and no key is set.
  pub same-Grown :
      (old : List WalEntry) (before after : Bytes → Bool) {L L' : Type 0}
      → ((k : Bytes) → after k ≡ before k)
      → (L → L')
      → Grown value old old before after L L'
  same-Grown old before after same f = record {
    more = [];
    extends = sym (append-nil old);
    plain = tt;
    no_others = λ k h. absurd (cc (h));
    fewer = λ k h. sym (same k) ∙ h;
    logged = f;
    committed = λ k l h g. absurd (cc (h, g, same k));
  }

  later-InLog :
      {old total : List WalEntry} {before after : Bytes → Bool} {L L' : Type 0}
      → Grown value old total before after L L'
      → (k : Bytes) → InLog old k
      → InLog total k
  later-InLog {old = old} g k l =
      subst (λ t. InLog t k) (sym g.extends) (InLog-append value old g.more k g.plain l)

  pub Grown-trans :
      {a b d : List WalEntry} {p q r : Bytes → Bool} {L M N : Type 0}
      → Grown value a b p q L M
      → Grown value b d q r M N
      → Grown value a d p r L N
  Grown-trans {a = a} {q = q} g h = record {
    more = g.more ++ h.more;
    extends = h.extends ∙ ap (λ l. l ++ h.more) g.extends ∙ append_assoc a g.more h.more;
    plain = All-append (IsPlain value) g.more h.more g.plain h.plain;
    no_others = λ k e. elim (Bool-cases (sets_any k g.more)) [
      | inl first ↦ g.no_others k first
      | inr not_first ↦
          g.fewer k (h.no_others k (ground (arith, any_of-append (sets k) g.more h.more)))
    ];
    fewer = λ k e. g.fewer k (h.fewer k e);
    logged = λ l. h.logged (g.logged l);
    committed = λ k l e f. elim (Bool-cases (q k)) [
      | inl still ↦ h.committed k (g.logged l) still f
      | inr set ↦ later-InLog h k (g.committed k l e set)
    ];
  }

  -- Other tasks stand beside.
  pub first-Grown :
      {old total : List WalEntry} {p q : Bytes → Bool} {L L' M M' : Type 0} (r : Bytes → Bool)
      → (M → M')
      → Grown value old total p q L L'
      → Grown value old total (λ k. p k || r k) (λ k. q k || r k) (L × M) (L' × M')
  first-Grown {p = p} {q = q} r f g = record {
    more = g.more;
    extends = g.extends;
    plain = g.plain;
    no_others = λ k e. let own = g.no_others k e in ground arith;
    fewer = λ k e. elim (Bool-cases (q k)) [
      | inl own ↦ let was = g.fewer k own in ground arith
      | inr not_own ↦ ground arith
    ];
    logged = λ x. (g.logged x.0, f x.1);
    committed = λ k x e h. g.committed k x.0 (ground arith) (ground arith);
  }

  pub behind-Grown :
      {old total : List WalEntry} {p q : Bytes → Bool} {L L' M M' : Type 0} (r : Bytes → Bool)
      → (M → M')
      → Grown value old total p q L L'
      → Grown value old total (λ k. r k || p k) (λ k. r k || q k) (M × L) (M' × L')
  behind-Grown {p = p} {q = q} r f g = record {
    more = g.more;
    extends = g.extends;
    plain = g.plain;
    no_others = λ k e. let own = g.no_others k e in ground arith;
    fewer = λ k e. elim (Bool-cases (q k)) [
      | inl own ↦ let was = g.fewer k own in ground arith
      | inr not_own ↦ ground arith
    ];
    logged = λ x. (f x.0, g.logged x.1);
    committed = λ k x e h. g.committed k x.1 (ground arith) (ground arith);
  }

-- How the log grows while the tasks `ws` become `ws'`.
abbrev pub Grows :
    (Bytes → Bytes) → List WalEntry → List WalEntry → List Worker → List Worker → Type 0
Grows value old total ws ws' =
    Grown value old total (λ k. any_will_set k ws) (λ k. any_will_set k ws') (All (IsLogged old) ws)
      (All (IsLogged total) ws')

pub all-IsLogged :
    (value : Bytes → Bytes) (total more : List WalEntry) (ws : List Worker)
    → All (IsLogged total) ws
    → All (IsLogged (total ++ more)) ws
all-IsLogged value total more [] h = tt
all-IsLogged value total more (w ∷ ws) h =
    (IsLogged-append value total more w h.0, all-IsLogged value total more ws h.1)
