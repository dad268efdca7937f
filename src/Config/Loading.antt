-- ===== src/Config/Loading.antt =====
-- `LoadServerConfig` of src/config/ServerConfig.cpp: reading, choosing the format, validation.
use recipes_core.Prelude.{
  Text, text, eq_text, eq_text_iff, ◌≡◌, refl, ap, ◌↔◌, ◌⊎◌, inl, inr, Bool-cases, some, arith,
  subst, sym,
}
use recipes_core.Api.{Attempt, returns, throws, Result, value, error, Read, done}
use recipes_core.Config.{
  from_contents, ServerConfig, default_config, ConfigSource, validate_server_config,
  load_server_config, lowercase_extension, read_config_file, parse_config, parsed_as, validated,
}
use recipes_core.Config.Validation.{IsUsable, validate_server_config_iff}

module _ (source : ConfigSource) where
  -- The format that the extension chooses, whatever its case, reads the document into the defaults.
  abbrev pub Reads : Text → Text → ServerConfig → Type 0
  Reads extension contents c =
      ((extension ≡ text ".json") × (source.read_json default_config contents ≡ done c))
      ⊎ (((extension ≡ text ".yaml") ⊎ (extension ≡ text ".yml"))
          × (source.read_yaml default_config contents ≡ done c))

  pub record Loads (config_path : Text) (c : ServerConfig) : Type 0 where
    pub contents : Text
    pub opens : source.contents config_path ≡ some (returns contents)
    pub reads : Reads (lowercase_extension source config_path) contents c
    pub usable : IsUsable c

  parse_config_iff :
      (document : Text) (read : ServerConfig → Text → Read ServerConfig) (c : ServerConfig)
      → (parse_config source document read ≡ value c) ↔ (read default_config document ≡ done c)
  unfolding parse_config
  parse_config_iff document read c = (λ h. ground arith, λ h. rw (h, parse_config))

  parsed_as_sound :
      (extension contents : Text) (c : ServerConfig)
      → parsed_as source extension contents ≡ value c
      → Reads extension contents c
  parsed_as_sound extension contents c h = elim (Bool-cases (eq_text extension (text ".json"))) [
    | inl j ↦
        inl ((eq_text_iff _ _).0 j, (parse_config_iff contents source.read_json c).0 (rw j at h))
    | inr j ↦ elim (Bool-cases (eq_text extension (text ".yaml"))) [
      | inl y ↦ inr (
        inl ((eq_text_iff _ _).0 y),
        (parse_config_iff contents source.read_yaml c).0 (rw (j, y) at h),
      )
      | inr y ↦ elim (Bool-cases (eq_text extension (text ".yml"))) [
        | inl z ↦ inr (
          inr ((eq_text_iff _ _).0 z),
          (parse_config_iff contents source.read_yaml c).0 (rw (j, y, z) at h),
        )
        | inr z ↦ absurd (refused (rw (j, y, z) at h))
      ]
    ]
  ]
    where
      refused : {m : Text} → ◌≡◌ {A = Result ServerConfig} (error m) (value c) → ⊥
      refused e = cc

  parsed_as_complete :
      (extension contents : Text) (c : ServerConfig)
      → Reads extension contents c
      → parsed_as source extension contents ≡ value c
  unfolding eq_text
  parsed_as_complete extension contents c (inl (e, r)) =
      subst (λ x. parsed_as source x contents ≡ value c) (sym e)
        ((parse_config_iff contents source.read_json c).1 r)
  parsed_as_complete extension contents c (inr (inl e, r)) =
      subst (λ x. parsed_as source x contents ≡ value c) (sym e)
        ((parse_config_iff contents source.read_yaml c).1 r)
  parsed_as_complete extension contents c (inr (inr e, r)) =
      subst (λ x. parsed_as source x contents ≡ value c) (sym e)
        ((parse_config_iff contents source.read_yaml c).1 r)

  validated_sound :
      (r : Result ServerConfig) (c : ServerConfig)
      → validated source r ≡ value c
      → (r ≡ value c) × (validate_server_config c ≡ value tt)
  validated_sound (error message) c h = cc
  validated_sound (value d) c h = by_result (validate_server_config d) refl h
    where
      by_result :
          (v : Result (Unit {0}))
          → validate_server_config d ≡ v
          → (elim v as (λ _. Result ServerConfig) [
            | error message ↦ error message
            | value _ ↦ value d
          ])
            ≡ value c
          → (value d ≡ value c) × (validate_server_config c ≡ value tt)
      by_result (error message) e k = cc
      by_result (value tt) e k = (k, subst (λ x. validate_server_config x ≡ value tt) (same k) e)
        where
          same : value d ≡ value c → d ≡ c
          same q = cc

  validated_complete : (c : ServerConfig) → IsUsable c → validated source (value c) ≡ value c
  validated_complete c usable = rw ((validate_server_config_iff c).1 usable, validated)

  read_config_file_iff :
      (config_path contents : Text)
      → (read_config_file source config_path ≡ returns (value contents))
        ↔ (source.contents config_path ≡ some (returns contents))
  unfolding read_config_file
  read_config_file_iff config_path contents = (λ h. ground arith, λ h. rw (h, read_config_file))

  from_contents_sound :
      (config_path : Text) (c : ServerConfig) (r : Attempt (Result Text))
      → read_config_file source config_path ≡ r
      → from_contents source (lowercase_extension source config_path) r ≡ returns (value c)
      → Loads config_path c
  from_contents_sound config_path c (throws what) e h = cc
  from_contents_sound config_path c (returns (error message)) e h = cc
  from_contents_sound config_path c (returns (value contents)) e h =
      let extension = lowercase_extension source config_path in
      let loaded : validated source (parsed_as source extension contents) ≡ value c = cc in
      let parts = validated_sound (parsed_as source extension contents) c loaded in
      record {
        contents = contents;
        opens = (read_config_file_iff config_path contents).0 e;
        reads = parsed_as_sound extension contents c parts.0;
        usable = (validate_server_config_iff c).0 parts.1;
      }

  load_complete :
      (config_path : Text) (c : ServerConfig)
      → Loads config_path c
      → load_server_config source config_path ≡ returns (value c)
  unfolding load_server_config
  load_complete config_path c h =
      rw
        (
          (read_config_file_iff config_path h.contents).1 h.opens,
          parsed_as_complete (lowercase_extension source config_path) h.contents c h.reads,
        )
        (ap returns (validated_complete c h.usable))

  -- A configuration is loaded exactly when the file opens and is read without an exception, its
  -- extension is `.json`, `.yaml` or `.yml` in any case, the reader of that format reads it into the
  -- defaults, and it is usable.
  pub load_server_config_iff :
      (config_path : Text) (c : ServerConfig)
      → (load_server_config source config_path ≡ returns (value c)) ↔ Loads config_path c
  unfolding load_server_config
  load_server_config_iff config_path c = (
    from_contents_sound config_path c (read_config_file source config_path) refl,
    load_complete config_path c,
  )
