-- ===== src/Trim/Laws.antt =====
-- What `TrimSpace` keeps.
use Prim.Native.Char.{Char, code}
use Prim.Native.String.append
use chainlink_polkadot.Prelude.{
  ◌≡◌, refl, ap, String, ◌<>◌, Bool, true, false, Bool-cases, inl, inr, ◌∙◌,
}
use chainlink_polkadot.Trim.{is_space, trim_left, trim_right, keep_left, trim_space}

abbrev pub AllSpace : String → Type 0
AllSpace String.[] = Unit
AllSpace (String.◌∷◌ c s) = (is_space (code c) ≡ true) × AllSpace s

abbrev pub StartsSolid : String → Type 0
StartsSolid String.[] = Unit
StartsSolid (String.◌∷◌ c s) = is_space (code c) ≡ false

abbrev pub EndsSolid : String → Type 0
EndsSolid String.[] = Unit
EndsSolid (String.◌∷◌ c String.[]) = is_space (code c) ≡ false
EndsSolid (String.◌∷◌ c (String.◌∷◌ d s)) = EndsSolid (String.◌∷◌ d s)

trim_left_lem :
    (s : String) → (l : String) × (s ≡ l <> trim_left s) × AllSpace l × StartsSolid (trim_left s)
unfolding trim_left
trim_left_lem String.[] = (String.[], refl, tt, tt)
trim_left_lem (String.◌∷◌ c s) = elim (Bool-cases (is_space (code c))) [
  | inl space ↦
      let (l, e, a, h) = trim_left_lem s in
      (String.◌∷◌ c l, rw (space, append.cons) (ap (String.◌∷◌ c) e), (space, a), rw space h)
  | inr solid ↦ (String.[], rw (solid, append.nil), tt, rw solid solid)
]

keep_left_lem :
    (b : Bool) (c : Char) (t s r : String)
    → is_space (code c) ≡ b
    → s ≡ t <> r
    → AllSpace r
    → EndsSolid t
    → (q : String) × (String.◌∷◌ c s ≡ keep_left b c t <> q)
      × AllSpace q
      × EndsSolid (keep_left b c t)
keep_left_lem true c String.[] s r p e a h =
    (String.◌∷◌ c r, rw append.nil (ap (String.◌∷◌ c) (rw append.nil at e)), (p, a), tt)
keep_left_lem true c (String.◌∷◌ d t) s r p e a h = (r, rw append.cons (ap (String.◌∷◌ c) e), a, h)
keep_left_lem false c String.[] s r p e a h = (r, rw append.cons (ap (String.◌∷◌ c) e), a, p)
keep_left_lem false c (String.◌∷◌ d t) s r p e a h = (r, rw append.cons (ap (String.◌∷◌ c) e), a, h)

trim_right_lem :
    (s : String) → (r : String) × (s ≡ trim_right s <> r) × AllSpace r × EndsSolid (trim_right s)
unfolding trim_right
trim_right_lem String.[] = (String.[], refl, tt, tt)
trim_right_lem (String.◌∷◌ c s) =
    let (r, e, a, h) = trim_right_lem s in
    keep_left_lem (is_space (code c)) c (trim_right s) s r refl e a h

trim_right-StartsSolid : (s : String) → StartsSolid s → StartsSolid (trim_right s)
unfolding trim_right
trim_right-StartsSolid String.[] h = tt
trim_right-StartsSolid (String.◌∷◌ c s) h = rw h h

-- Trimming takes away white space at the two ends and nothing else, and all of it: the text is the
-- trimmed one between two runs of white space, and the trimmed text neither begins nor ends with
-- white space.
pub trim_space_lem :
    (s : String)
    → (l r : String) × (s ≡ l <> (trim_space s <> r))
      × AllSpace l
      × AllSpace r
      × StartsSolid (trim_space s)
      × EndsSolid (trim_space s)
unfolding trim_space
trim_space_lem s =
    let (l, e, a, h) = trim_left_lem s in
    let (r, f, b, k) = trim_right_lem (trim_left s) in
    (l, r, e ∙ ap (λ t. l <> t) f, a, b, trim_right-StartsSolid (trim_left s) h, k)

trim_left-eq_self : (s : String) → StartsSolid s → trim_left s ≡ s
unfolding trim_left
trim_left-eq_self String.[] h = refl
trim_left-eq_self (String.◌∷◌ c s) h = rw h refl

keep_left-cons :
    (b : Bool) (c d : Char) (s : String)
    → keep_left b c (String.◌∷◌ d s) ≡ String.◌∷◌ c (String.◌∷◌ d s)
keep_left-cons true c d s = refl
keep_left-cons false c d s = refl

trim_right-eq_self : (s : String) → EndsSolid s → trim_right s ≡ s
unfolding trim_right
trim_right-eq_self String.[] h = refl
trim_right-eq_self (String.◌∷◌ c String.[]) h = rw h refl
trim_right-eq_self (String.◌∷◌ c (String.◌∷◌ d s)) h =
    ap (keep_left (is_space (code c)) c) (trim_right-eq_self (String.◌∷◌ d s) h)
    ∙ keep_left-cons (is_space (code c)) c d s

-- A text with no white space at its ends is left as it is.
pub trim_space-eq_self : (s : String) → StartsSolid s → EndsSolid s → trim_space s ≡ s
unfolding trim_space
trim_space-eq_self s a b = rw (trim_left-eq_self s a) (trim_right-eq_self s b)
