-- ===== src/Auth/Admitted.antt =====
-- What lets a user in: the guards of app/auth/dependencies.py, read backwards.
use biocodetechpay.Prelude.{
  ℕ, ◌≡◌, refl, sym, ◌∙◌, ap, true, false, not, ◌||◌, none, some, Text, arith, Option-cases,
  Bool-cases, inl, inr, ◌⊎◌,
}
use biocodetechpay.Store.{Db, User}
use biocodetechpay.Http.{success, failure}
use biocodetechpay.Charge.Inbound.{is_empty}
use biocodetechpay.Auth.Session.{
  Jwt, TokenSettings, Claims, Cookies, find_by_document, decode_access_token, access_user,
  refreshed_user, try_refresh, get_current_user, gate, may_refresh,
}
use biocodetechpay.Auth.Access.{own_document}

apart : (u : User) → some u ≡ none → ⊥
apart u h = cc

unsome : (v u : User) → some v ≡ some u → v ≡ u
unsome v u h = cc

answered : (v u : User) → success v ≡ success u → v ≡ u
answered v u h = cc

refused : (u : User) → failure 403 ≡ success u → ⊥
refused u h = cc

refused_401 : (u : User) → failure 401 ≡ success u → ⊥
refused_401 u h = cc

-- The token that lets a user in: an access token that names the user, or a refresh token that does,
-- where the user is active.
abbrev pub HasToken : Jwt → ℕ → Cookies → User → Type 0
HasToken jwt now cookies u =
    ((raw : Text) × (c : Claims) × (cookies.access_token ≡ some raw)
      × (decode_access_token jwt now raw ≡ some c)
      × (c.is_refresh ≡ false)
      × (u.cpf_cnpj ≡ c.sub))
    ⊎ ((raw : Text) × (c : Claims) × (cookies.refresh_token ≡ some raw)
        × (jwt.decode now raw ≡ some c)
        × (c.is_refresh ≡ true)
        × (u.cpf_cnpj ≡ c.sub)
        × (u.is_active ≡ true))

decode_access-claims :
    (jwt : Jwt) (now : ℕ) (raw : Text) (c : Claims)
    → decode_access_token jwt now raw ≡ some c
    → c.is_refresh ≡ false
unfolding decode_access_token
decode_access-claims jwt now raw c h = ground arith

access_user-HasToken :
    (jwt : Jwt) (now : ℕ) (cookies : Cookies) (db : Db) (u : User)
    → access_user jwt now cookies db ≡ some u
    → HasToken jwt now cookies u
unfolding access_user
access_user-HasToken jwt now cookies db u h = elim (Option-cases cookies.access_token) [
  | inl none_given ↦
      let nobody : access_user jwt now cookies db ≡ none = rw (none_given, access_user) refl in
      absurd (apart u (sym h ∙ nobody))
  | inr (raw, e) ↦ elim (Option-cases (decode_access_token jwt now raw)) [
    | inl bad ↦
        let nobody : access_user jwt now cookies db ≡ none = rw (e, access_user) (rw bad refl) in
        absurd (apart u (sym h ∙ nobody))
    | inr (c, d) ↦ elim (Bool-cases (is_empty c.sub)) [
      | inl unnamed ↦
          let nobody : access_user jwt now cookies db ≡ none =
            rw (e, access_user) (rw d (rw unnamed refl)) in
          absurd (apart u (sym h ∙ nobody))
      | inr named ↦
          let same : access_user jwt now cookies db ≡ find_by_document c.sub db =
            rw (e, access_user) (rw d (rw named refl)) in
          let found : find_by_document c.sub db ≡ some u = sym same ∙ h in
          inl (raw, c, e, d, decode_access-claims jwt now raw c d, own_document u c.sub db found)
    ]
  ]
]

refreshed_user-HasToken :
    (jwt : Jwt) (now : ℕ) (cookies : Cookies) (raw : Text) (db : Db) (u : User)
    → cookies.refresh_token ≡ some raw
    → refreshed_user jwt now raw db ≡ some u
    → HasToken jwt now cookies u
unfolding refreshed_user
refreshed_user-HasToken jwt now cookies raw db u e h = elim (Option-cases (jwt.decode now raw)) [
  | inl bad ↦
      let nobody : refreshed_user jwt now raw db ≡ none = rw (bad, refreshed_user) refl in
      absurd (apart u (sym h ∙ nobody))
  | inr (c, d) ↦ elim (Bool-cases (not c.is_refresh || is_empty c.sub)) [
    | inl unfit ↦
        let nobody : refreshed_user jwt now raw db ≡ none =
          rw (d, refreshed_user) (rw unfit refl) in
        absurd (apart u (sym h ∙ nobody))
    | inr fit ↦ elim (Option-cases (find_by_document c.sub db)) [
      | inl unknown ↦
          let nobody : refreshed_user jwt now raw db ≡ none =
            rw (d, refreshed_user) (rw fit (rw unknown refl)) in
          absurd (apart u (sym h ∙ nobody))
      | inr (v, found) ↦ elim (Bool-cases (may_refresh v)) [
        | inr shut_out ↦
            let nobody : refreshed_user jwt now raw db ≡ none =
              rw (d, refreshed_user) (rw fit (rw found (rw shut_out refl))) in
            absurd (apart u (sym h ∙ nobody))
        | inl allowed ↦
            let same : refreshed_user jwt now raw db ≡ some v =
              rw (d, refreshed_user) (rw fit (rw found (rw allowed refl))) in
            let e_user : v ≡ u = unsome v u (sym same ∙ h) in
            inr (
              raw,
              c,
              e,
              d,
              ground (arith, fit),
              ap (λ (x : User). x.cpf_cnpj) (sym e_user) ∙ own_document v c.sub db found,
              ap (λ (x : User). x.is_active) (sym e_user) ∙ ground (arith, allowed),
            )
      ]
    ]
  ]
]

gate-verified : (v u : User) → gate v ≡ success u → (v ≡ u) × (u.email_verified ≡ true)
gate-verified v u h = elim (Bool-cases v.email_verified) [
  | inl yes_mail ↦
      let open_gate : gate v ≡ success v = ground (arith, yes_mail) in
      let e : v ≡ u = answered v u (sym open_gate ∙ h) in
      (e, ap (λ (x : User). x.email_verified) (sym e) ∙ yes_mail)
  | inr no_mail ↦
      let shut : gate v ≡ failure 403 = ground (arith, no_mail) in absurd (refused u (sym shut ∙ h))
]

-- Whoever is let in has a verified address and holds a token that names the user: an access token,
-- or a refresh token of an active user. A refresh token in the place of an access token lets nobody
-- in.
pub authenticated :
    (jwt : Jwt) (settings : TokenSettings) (now : ℕ) (cookies : Cookies) (db : Db) (u : User)
    → (get_current_user jwt settings now cookies db).1 ≡ success u
    → (u.email_verified ≡ true) × HasToken jwt now cookies u
unfolding get_current_user try_refresh
authenticated jwt settings now cookies db u h =
    elim (Option-cases (access_user jwt now cookies db)) [
      | inr (v, e) ↦
          let answer : (get_current_user jwt settings now cookies db).1 ≡ gate v =
            rw (e, get_current_user) refl in
          let (same, verified) = gate-verified v u (sym answer ∙ h) in
          (verified, access_user-HasToken jwt now cookies db u (e ∙ ap some same))
      | inl none_in ↦ elim (Option-cases cookies.refresh_token) [
        | inl none_given ↦
            let answer : (get_current_user jwt settings now cookies db).1 ≡ failure 401 =
              rw (none_in, get_current_user) (rw none_given refl) in
            absurd (refused_401 u (sym answer ∙ h))
        | inr (raw, r) ↦ elim (Option-cases (refreshed_user jwt now raw db)) [
          | inl nobody ↦
              let answer : (get_current_user jwt settings now cookies db).1 ≡ failure 401 =
                rw (none_in, get_current_user) (rw r (rw (nobody, try_refresh) refl)) in
              absurd (refused_401 u (sym answer ∙ h))
          | inr (v, e) ↦
              let answer : (get_current_user jwt settings now cookies db).1 ≡ gate v =
                rw (none_in, get_current_user) (rw r (rw (e, try_refresh) refl)) in
              let (same, verified) = gate-verified v u (sym answer ∙ h) in
              (verified, refreshed_user-HasToken jwt now cookies raw db u r (e ∙ ap some same))
        ]
      ]
    ]
