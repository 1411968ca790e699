-- ===== src/Lookup/Config.antt =====
-- resolveLookupConfig of src/lookup/index.js and resolveHamdataUrl of src/hamdata/client.js. `env` is
-- the environment, where a missing variable reads as the empty text does.
use contestscore.Prelude.{
  ◌≡◌, ◌⊎◌, refl, inl, inr, Bool, true, false, not, ◌&&◌, [], ◌∷◌, ◌++◌, arith, ◌==◌, Bool-cases,
  if◌then◌else◌,
}
use contestscore.Prelude.Text.{
  Text, codes, text_eq, text_eq_iff, is_empty, or_else, to_lower_case, to_upper_case,
}
use mathlib.Core.List.{reverse}

pub record Credentials : Type 0 where
  pub username : Text
  pub password : Text

-- config/default.json's `lookup` and `hamdata.url`
pub record Config : Type 0 where
  pub provider : Text
  pub prg : Text
  pub credentials : Text → Credentials
  pub hamdata_url : Text

pub record LookupConfig : Type 0 where
  pub provider : Text
  pub enabled : Bool
  pub prg : Text
  pub url : Text
  pub username : Text
  pub password : Text

unfoldable pub drop_slashes : Text → Text
drop_slashes [] = []
drop_slashes (c ∷ s) = if c == b'/' then drop_slashes s else c ∷ s

-- replace(/\/+$/, '')
unfoldable pub resolve_hamdata_url : (Text → Text) → Config → Text
unfolding drop_slashes
resolve_hamdata_url env config =
    reverse (drop_slashes (reverse (or_else (env (codes "HAMDATA_URL")) config.hamdata_url)))

unfoldable pub off : Text → LookupConfig
off prg = record {
  provider = codes "none";
  enabled = false;
  prg = prg;
  url = [];
  username = [];
  password = [];
}

-- the part behind the two early returns for LOOKUP_PROVIDER=none and hamdata
unfoldable pub own_provider : (Text → Text) → Config → Text → Text → LookupConfig
unfolding off text_eq to_upper_case
own_provider env config prg provider =
    if not (text_eq provider (codes "hamqth"))
    then off prg
    else let creds = config.credentials provider in
      let username = or_else (env (to_upper_case provider ++ codes "_USERNAME")) creds.username in
      let password = or_else (env (to_upper_case provider ++ codes "_PASSWORD")) creds.password in
      record {
        provider = provider;
        enabled = not (is_empty username) && not (is_empty password);
        prg = prg;
        url = [];
        username = username;
        password = password;
      }

unfoldable pub resolve_lookup_config : (Text → Text) → Config → LookupConfig
unfolding own_provider off resolve_hamdata_url text_eq to_lower_case
resolve_lookup_config env config =
    let prg = or_else config.prg (codes "contestscore") in
    let url = resolve_hamdata_url env config in
    if text_eq (to_lower_case (env (codes "LOOKUP_PROVIDER"))) (codes "none")
    then off prg
    else if not (is_empty url)
    then record {
      provider = codes "hamdata";
      enabled = true;
      prg = prg;
      url = url;
      username = [];
      password = [];
    }
    else own_provider env config prg (
        to_lower_case
          (or_else (env (codes "LOOKUP_PROVIDER")) (or_else config.provider (codes "none"))))

own_provider-enabled :
    (env : Text → Text) (config : Config) (prg provider : Text)
    → (own_provider env config prg provider).enabled ≡ true
    → ((own_provider env config prg provider).provider ≡ codes "hamqth")
      × (is_empty (own_provider env config prg provider).username ≡ false)
      × (is_empty (own_provider env config prg provider).password ≡ false)
unfolding own_provider off
own_provider-enabled env config prg provider h =
    elim (Bool-cases (text_eq provider (codes "hamqth"))) [
      | inr e ↦ absurd (ground arith)
      | inl e ↦
          let p : provider ≡ codes "hamqth" = (text_eq_iff provider (codes "hamqth")).0 e in
          rw e (p, ground arith, ground arith)
    ]

-- Lookups are on only with a hamdata URL or with both credentials of HamQTH, and never if the
-- environment says LOOKUP_PROVIDER=none, in letters of either case.
pub resolve_lookup_config-enabled :
    (env : Text → Text) (config : Config)
    → (resolve_lookup_config env config).enabled ≡ true
    → (text_eq (to_lower_case (env (codes "LOOKUP_PROVIDER"))) (codes "none") ≡ false)
      × (((resolve_lookup_config env config).provider ≡ codes "hamdata")
            × (is_empty (resolve_lookup_config env config).url ≡ false)
          ⊎ ((resolve_lookup_config env config).provider ≡ codes "hamqth")
            × (is_empty (resolve_lookup_config env config).username ≡ false)
            × (is_empty (resolve_lookup_config env config).password ≡ false))
unfolding resolve_lookup_config off
resolve_lookup_config-enabled env config h =
    elim (Bool-cases (text_eq (to_lower_case (env (codes "LOOKUP_PROVIDER"))) (codes "none"))) [
      | inl e ↦ absurd (let f : false ≡ true = rw e at h in cc)
      | inr e ↦ elim (Bool-cases (is_empty (resolve_hamdata_url env config))) [
        | inr u ↦ rw (e, u) (refl, inl (refl, u))
        | inl u ↦
            let prg = or_else config.prg (codes "contestscore") in
            let provider =
              to_lower_case (
                or_else (env (codes "LOOKUP_PROVIDER")) (or_else config.provider (codes "none"))) in
            let k : (own_provider env config prg provider).enabled ≡ true = rw (e, u) at h in
            rw (e, u) (refl, inr (own_provider-enabled env config prg provider k))
      ]
    ]
