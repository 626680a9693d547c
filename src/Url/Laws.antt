-- ===== src/Url/Laws.antt =====
-- Which templates are taken, and what becomes of them.
use esp32aging.Base.{
  ℕ, ◌<◌, ◌≡◌, refl, sym, ap, ap₂, ◌∙◌, ◌≢◌, ◌↔◌, inl, inr, Bool, true, false, not, ◌&&◌, ◌||◌,
  Option, none, some, List, [], ◌∷◌, ◌++◌, arith, leb, ◌==◌, if◌then◌else◌, Bool-cases, length,
  ℕ_discrete, some_inj, if_cases, str_eq, str_eq_iff, is_empty,
}
use esp32aging.Url.{
  Err, ok, invalid_arg, invalid_state, invalid_size, placeholder_from,
  url_fmt_has_single_ip_placeholder, server_ip_unset, lg_url_build,
}

abbrev pub has_no_percent : List ℕ → Bool
has_no_percent [] = true
has_no_percent (c ∷ cs) = not (c == b'%') && has_no_percent cs

-- A template with one place for the address.
pub record IsTemplate (url_fmt before after : List ℕ) : Type 0 where
  pub parts : url_fmt ≡ before ++ b'%' ∷ b's' ∷ after
  pub before_plain : has_no_percent before ≡ true
  pub after_plain : has_no_percent after ≡ true

is_empty→nil : (xs : List ℕ) → is_empty xs ≡ true → xs ≡ []
is_empty→nil [] h = refl
is_empty→nil (x ∷ xs) h = cc

placeholder_from-found : (xs : List ℕ) → placeholder_from true xs ≡ has_no_percent xs
unfolding placeholder_from
placeholder_from-found [] = refl
placeholder_from-found (c ∷ []) = ground arith
placeholder_from-found (c ∷ d ∷ rest) = ground (arith, placeholder_from-found (d ∷ rest))

placeholder_from-template :
    (before after : List ℕ)
    → has_no_percent before ≡ true
    → has_no_percent after ≡ true
    → placeholder_from false (before ++ b'%' ∷ b's' ∷ after) ≡ true
unfolding placeholder_from
placeholder_from-template [] after h k = placeholder_from-found after ∙ k
placeholder_from-template (c ∷ []) after h k =
    ground (arith, placeholder_from-template [] after refl k)
placeholder_from-template (c ∷ d ∷ rest) after h k =
    ground (arith, placeholder_from-template (d ∷ rest) after (ground arith) k)

placeholder_from-split :
    (xs : List ℕ)
    → placeholder_from false xs ≡ true
    → (before after : List ℕ) × IsTemplate xs before after
unfolding placeholder_from
placeholder_from-split [] h = cc
placeholder_from-split (c ∷ []) h = absurd (ground arith)
placeholder_from-split (c ∷ d ∷ rest) h = elim (ℕ_discrete c b'%') [
  | yes e ↦ (
    [],
    rest,
    record {
      parts = ap₂ (λ (x y : ℕ). x ∷ y ∷ rest) e (ground arith);
      before_plain = refl;
      after_plain = ground (arith, placeholder_from-found rest);
    },
  )
  | no e ↦
      let found = placeholder_from-split (d ∷ rest) (ground arith) in
      (
        c ∷ found.0,
        found.1,
        record {
          parts = ap (◌∷◌ c) found.2.parts;
          before_plain = ground (arith, found.2.before_plain);
          after_plain = found.2.after_plain;
        },
      )
]

-- What `snprintf` is documented to do with one place for a string.
abbrev pub IsFormat : (List ℕ → List ℕ → List ℕ) → Type 0
IsFormat format =
    (url_fmt before after argument : List ℕ)
    → IsTemplate url_fmt before after
    → format url_fmt argument ≡ before ++ (argument ++ after)

-- The URL of a template and an address that is configured.
pub record IsUrl (ip url_fmt : List ℕ) (out_size : ℕ) (url : List ℕ) : Type 0 where
  pub configured : (ip ≢ []) × (ip ≢ server_ip_unset)
  pub before : List ℕ
  pub after : List ℕ
  pub template : IsTemplate url_fmt before after
  pub filled : url ≡ before ++ (ip ++ after)
  pub fits : length url < out_size

module _ (format : List ℕ → List ℕ → List ℕ) (formats : IsFormat format) (ip url_fmt : List ℕ)
    (out_size : ℕ) (url : List ℕ) where
  is_unset : Bool
  is_unset = is_empty ip || str_eq ip server_ip_unset

  -- Tests that an address passes.
  set-configured : is_unset ≡ false → (ip ≢ []) × (ip ≢ server_ip_unset)
  unfolding is_unset
  set-configured h =
      (λ e. ground (arith, ap is_empty e), λ e. ground (arith, (str_eq_iff ip server_ip_unset).1 e))

  configured-set : (ip ≢ []) × (ip ≢ server_ip_unset) → is_unset ≡ false
  unfolding is_unset
  configured-set h = elim (Bool-cases (is_empty ip)) [
    | inl e ↦ absurd (h.0 (is_empty→nil ip e))
    | inr e ↦ elim (Bool-cases (str_eq ip server_ip_unset)) [
      | inl k ↦ absurd (h.1 ((str_eq_iff ip server_ip_unset).0 k))
      | inr k ↦ rw (e, k) refl
    ]
  ]

  lg_url_build-IsUrl :
      lg_url_build format (some ip) (some url_fmt) true out_size ≡ (ok, some url)
      → IsUrl ip url_fmt out_size url
  unfolding lg_url_build url_fmt_has_single_ip_placeholder is_unset
  lg_url_build-IsUrl =
      if_cases P (out_size == 0) (invalid_arg, none) sized (λ e h. cc (error h))
        (λ e.
          if_cases P (not (placeholder_from false url_fmt)) (invalid_arg, none) placed
            (λ k h. cc (error h))
            (λ k.
              if_cases P is_unset (invalid_state, none) filled (λ l h. cc (error h))
                (λ l.
                  if_cases P (leb out_size (length built)) (invalid_size, none) (ok, some built)
                    (λ m h. cc (error h))
                    (λ m h.
                      let parts = placeholder_from-split url_fmt (ground arith) in
                      let same = some_inj (ap (λ (x : Err × Option (List ℕ)). x.1) h) in
                      record {
                        configured = set-configured l;
                        before = parts.0;
                        after = parts.1;
                        template = parts.2;
                        filled = sym same ∙ formats url_fmt parts.0 parts.1 ip parts.2;
                        fits = omega (arith, ap length same, above m);
                      }))))
    where
      P : Err × Option (List ℕ) → Type 0
      P x = x ≡ (ok, some url) → IsUrl ip url_fmt out_size url

      built : List ℕ
      built = format url_fmt ip

      above : leb out_size (length built) ≡ false → length built < out_size
      above m = ground arith

      error : {x : Err × Option (List ℕ)} → x ≡ (ok, some url) → x.0 ≡ ok
      error h = ap (λ (y : Err × Option (List ℕ)). y.0) h

      filled : Err × Option (List ℕ)
      filled = if leb out_size (length built) then (invalid_size, none) else (ok, some built)

      placed : Err × Option (List ℕ)
      placed = if is_unset then (invalid_state, none) else filled

      sized : Err × Option (List ℕ)
      sized = if not (placeholder_from false url_fmt) then (invalid_arg, none) else placed

  -- `snprintf` behaves as documented. A URL is built exactly if the address is configured, the
  -- template has one "%s" and no other '%', and the result fits with its NUL; it is then the text before
  -- the place, the address and the text behind it.
  pub lg_url_build_iff :
      (lg_url_build format (some ip) (some url_fmt) true out_size ≡ (ok, some url))
      ↔ IsUrl ip url_fmt out_size url
  unfolding lg_url_build url_fmt_has_single_ip_placeholder is_unset
  lg_url_build_iff = (
    lg_url_build-IsUrl,
    λ u.
        let t = u.template in
        let placed : placeholder_from false url_fmt ≡ true =
          ap (placeholder_from false) t.parts
          ∙ placeholder_from-template u.before u.after t.before_plain t.after_plain in
        let same : format url_fmt ip ≡ url = formats url_fmt u.before u.after ip t ∙ sym u.filled in
        let small : leb out_size (length url) ≡ false = ground (arith, u.fits) in
        let some_size : (out_size == 0) ≡ false = ground (arith, u.fits) in
        rw (some_size, placed, configured-set u.configured, same, small) refl,
  )
