-- ===== src/TaskRunner/Readiness/Labels.antt =====
-- IsDNSLabel of taskrunner/tasks/readiness/readiness.go.
use etc.Prelude.{
  ℕ, ◌≤◌, ◌≡◌, ◌≢◌, ◌↔◌, ◌⊎◌, inl, inr, refl, sym, ap, Bool, true, ◌&&◌, ◌||◌, String, arith, leb,
  leb→le, ◌==◌,
}
use Prim.Native.Char.{Char, code}
use mathlib.Core.Path.{subst}
use etc.Prelude.Text.{is_empty}
use etc.TaskRunner.Readiness.{is_alphanumeric, is_label_end, is_label, text_length, is_dns_label}

-- A text, and one character after it.
unfoldable pub snoc : String → Char → String
snoc String.[] x = String.◌∷◌ x ""
snoc (String.◌∷◌ c s) x = String.◌∷◌ c (snoc s x)

-- [a-z0-9]
abbrev pub IsLowerOrDigit : Char → Type 0
IsLowerOrDigit c = ((97 ≤ code c) × (code c ≤ 122)) ⊎ ((48 ≤ code c) × (code c ≤ 57))

-- [-a-z0-9]*
unfoldable pub IsInner : String → Type 0
IsInner String.[] = Unit {0}
IsInner (String.◌∷◌ c s) = (IsLowerOrDigit c ⊎ (code c ≡ 45)) × IsInner s

-- ([-a-z0-9]*[a-z0-9])?
abbrev pub IsTail : String → Type 0
IsTail s =
    (s ≡ "") ⊎ ((body : String) × (c : Char) × (s ≡ snoc body c) × IsInner body × IsLowerOrDigit c)

-- [a-z0-9]([-a-z0-9]*[a-z0-9])?
abbrev pub IsLabel : String → Type 0
IsLabel s = (c : Char) × (tail : String) × (s ≡ String.◌∷◌ c tail) × IsLowerOrDigit c × IsTail tail

and_true : (a b : Bool) → (a && b ≡ true) ↔ ((a ≡ true) × (b ≡ true))
and_true a b = ground arith

is_alphanumeric-IsLowerOrDigit : (c : Char) → (is_alphanumeric c ≡ true) ↔ IsLowerOrDigit c
unfolding is_alphanumeric
is_alphanumeric-IsLowerOrDigit c = ground arith

inner_test :
    (c : Char) → ((is_alphanumeric c || (code c == 45)) ≡ true) ↔ (IsLowerOrDigit c ⊎ (code c ≡ 45))
inner_test c = ground (arith, is_alphanumeric-IsLowerOrDigit c)

IsTail-cons :
    (c : Char) (s : String)
    → IsLowerOrDigit c ⊎ (code c ≡ 45)
    → s ≢ ""
    → IsTail s
    → IsTail (String.◌∷◌ c s)
unfolding IsInner snoc
IsTail-cons c s h n (inl e) = elim (n e) [ ]
IsTail-cons c s h n (inr (body, x, e, inner, last)) =
    inr (String.◌∷◌ c body, x, ap (λ t. String.◌∷◌ c t) e, (h, inner), last)

nonempty : (c : Char) (s : String) → String.◌∷◌ c s ≢ ""
nonempty c s e = let empty : is_empty (String.◌∷◌ c s) ≡ true = ap is_empty e in cc

is_label_end-IsTail : (s : String) → is_label_end s ≡ true → IsTail s
unfolding is_label_end IsInner snoc
is_label_end-IsTail String.[] h = inl refl
is_label_end-IsTail (String.◌∷◌ c String.[]) h =
    inr ("", c, refl, tt, (is_alphanumeric-IsLowerOrDigit c).0 h)
is_label_end-IsTail (String.◌∷◌ c (String.◌∷◌ d s)) h =
    let parts = (and_true (is_alphanumeric c || (code c == 45)) _).0 h in
    IsTail-cons c (String.◌∷◌ d s) ((inner_test c).0 parts.0) (nonempty d s)
      (is_label_end-IsTail (String.◌∷◌ d s) parts.1)

inner-is_label_end :
    (body : String) (x : Char) → IsInner body → IsLowerOrDigit x → is_label_end (snoc body x) ≡ true
unfolding is_label_end IsInner snoc
inner-is_label_end String.[] x h k = (is_alphanumeric-IsLowerOrDigit x).1 k
inner-is_label_end (String.◌∷◌ c String.[]) x h k =
    (and_true (is_alphanumeric c || (code c == 45)) _).1
      ((inner_test c).1 h.0, (is_alphanumeric-IsLowerOrDigit x).1 k)
inner-is_label_end (String.◌∷◌ c (String.◌∷◌ d s)) x h k =
    (and_true (is_alphanumeric c || (code c == 45)) _).1
      ((inner_test c).1 h.0, inner-is_label_end (String.◌∷◌ d s) x h.1 k)

IsTail-is_label_end : (s : String) → IsTail s → is_label_end s ≡ true
unfolding is_label_end
IsTail-is_label_end s (inl e) = subst (λ t. is_label_end t ≡ true) (sym e) refl
IsTail-is_label_end s (inr (body, x, e, inner, last)) =
    subst (λ t. is_label_end t ≡ true) (sym e) (inner-is_label_end body x inner last)

is_label-IsLabel : (s : String) → (is_label s ≡ true) ↔ IsLabel s
is_label-IsLabel s = (to s, from s)
  where
    to : (t : String) → is_label t ≡ true → IsLabel t
    to String.[] h = cc
    to (String.◌∷◌ c t) h =
        let parts = (and_true (is_alphanumeric c) (is_label_end t)).0 h in
        (c, t, refl, (is_alphanumeric-IsLowerOrDigit c).0 parts.0, is_label_end-IsTail t parts.1)

    from : (t : String) → IsLabel t → is_label t ≡ true
    from t (c, tail, e, first, rest) =
        subst (λ u. is_label u ≡ true) (sym e)
          ((and_true (is_alphanumeric c) (is_label_end tail)).1
            ((is_alphanumeric-IsLowerOrDigit c).1 first, IsTail-is_label_end tail rest))

le→leb : (a b : ℕ) → a ≤ b → leb a b ≡ true
le→leb a b h = ground arith

-- A text is accepted as a DNS label exactly when it has at most 63 characters and is a lower-case
-- letter from a to z or a digit, and then nothing or such letters, digits and dashes that end in
-- such a letter or a digit.
pub is_dns_label-IsLabel :
    (s : String) → (is_dns_label s ≡ true) ↔ ((text_length s ≤ 63) × IsLabel s)
unfolding is_dns_label
is_dns_label-IsLabel s =
    let parts = and_true (leb (text_length s) 63) (is_label s) in
    let label = is_label-IsLabel s in
    (
      λ h. (leb→le (text_length s) 63 (parts.0 h).0, label.0 (parts.0 h).1),
      λ k. parts.1 (le→leb (text_length s) 63 k.0, label.1 k.1),
    )
