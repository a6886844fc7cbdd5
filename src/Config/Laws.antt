-- ===== src/Config/Laws.antt =====
-- Which environments make a configuration, and what holds of it.
use goprofile.Prelude.{
  ℕ, zero, suc, ◌<◌, ◌^◌, ◌≡◌, ◌≢◌, sym, ap, ◌∙◌, true, false, ◌⊎◌, inl, inr, refl, Bool-cases,
  Option-cases, Bytes, text, List, [], ◌∷◌, Option, some, none, All, arith, eq_iff, ◌==◌, nat_eq,
  text_eq, length,
}
use goprofile.Prelude.Int.{ℤ, pos, negsuc}
use goprofile.Text.{trim_space}
use goprofile.Text.Number.{parse_int, unsigned, positive, negative}
use goprofile.Domain.Errors.{message}
use goprofile.Result.{ok, err}
use goprofile.Config.{
  Config, env, env_int, env_int64, from_env, load, trimmed_parts, split_csv, parsed_or,
}

-- The integers of 64 bits.
abbrev pub Is64 : ℤ → Type 0
Is64 (pos n) = n < 2 ^ 63
Is64 (negsuc n) = n < 2 ^ 63

positive-Is64 : (o : Option ℕ) (z : ℤ) → positive o ≡ some z → Is64 z
positive-Is64 none z h = ground arith
positive-Is64 (some n) (pos m) h = ground arith
positive-Is64 (some n) (negsuc m) h = ground arith

negative-Is64 : (o : Option ℕ) (z : ℤ) → negative o ≡ some z → Is64 z
negative-Is64 none z h = ground arith
negative-Is64 (some zero) (pos m) h = ground arith
negative-Is64 (some zero) (negsuc m) h = ground arith
negative-Is64 (some (suc n)) (pos m) h = ground arith
negative-Is64 (some (suc n)) (negsuc m) h = ground arith

parse_int-Is64 : (s : Bytes) (z : ℤ) → parse_int s ≡ some z → Is64 z
unfolding parse_int
parse_int-Is64 [] z h = ground arith
parse_int-Is64 (a ∷ s) z h = ground (
  arith,
  negative-Is64 (unsigned s) z,
  positive-Is64 (unsigned s) z,
  positive-Is64 (unsigned (a ∷ s)) z,
)

parsed_or-Is64 :
    (s : Bytes) (fallback : ℤ) → Is64 fallback → Is64 (parsed_or fallback (parse_int s))
parsed_or-Is64 s fallback h = elim (Option-cases (parse_int s)) [
  | inl bad ↦ rw bad h
  | inr (z, fine) ↦ rw fine (parse_int-Is64 s z fine)
]

trimmed_parts-filled : (parts : List Bytes) → All (λ p. p ≢ []) (trimmed_parts parts)
unfolding trimmed_parts
trimmed_parts-filled [] = tt
trimmed_parts-filled (p ∷ parts) =
    ground (arith, trimmed_parts-filled parts, eq_iff (trim_space p) [])

empty_of_length : (xs : List Bytes) → (length xs == 0) ≡ true → xs ≡ []
empty_of_length [] h = refl
empty_of_length (x ∷ xs) h = ground arith

some_of_length : (xs : List Bytes) → (length xs == 0) ≡ false → xs ≢ []
some_of_length [] h e = ground arith
some_of_length (x ∷ xs) h e = ground (arith, ap length e)

filled : {s : Bytes} → (s == []) ≡ false → s ≢ []
filled {s} h = ground (arith, eq_iff s [])

-- What holds of a configuration that is loaded.
pub record IsLoaded (cfg : Config) : Type 0 where
  pub has_database : cfg.database_url ≢ []
  pub has_broker : cfg.kafka_brokers ≢ []
  pub brokers_filled : All (λ b. b ≢ []) cfg.kafka_brokers
  pub origins_filled : All (λ o. o ≢ []) cfg.cors_origins
  pub has_address : cfg.http_addr ≢ []
  pub has_bucket : cfg.s3_bucket ≢ []
  pub has_upload_topic : cfg.topic_upload ≢ []
  pub has_delete_topic : cfg.topic_delete ≢ []
  pub has_group : cfg.kafka_group ≢ []
  pub upload_limit : Is64 cfg.max_upload_bytes
  pub rate : Is64 cfg.rate_limit_rps

module _ (getenv : Bytes → Bytes) where
  env-filled : (key fallback : Bytes) → fallback ≢ [] → env getenv key fallback ≢ []
  unfolding env
  env-filled key fallback h = ground (arith, eq_iff (trim_space (getenv key)) [])

  env-blank : (key : Bytes) → env getenv key [] ≡ trim_space (getenv key)
  unfolding env
  env-blank key = ground (arith, eq_iff (trim_space (getenv key)) [])

  env_int-Is64 : (key : Bytes) (fallback : ℤ) → Is64 fallback → Is64 (env_int getenv key fallback)
  unfolding env_int
  env_int-Is64 key fallback h = elim (Bool-cases (trim_space (getenv key) == [])) [
    | inl blank ↦ rw blank h
    | inr set ↦ rw set (parsed_or-Is64 (trim_space (getenv key)) fallback h)
  ]

  env_int64-Is64 :
      (key : Bytes) (fallback : ℤ) → Is64 fallback → Is64 (env_int64 getenv key fallback)
  unfolding env_int64
  env_int64-Is64 key fallback h = elim (Bool-cases (trim_space (getenv key) == [])) [
    | inl blank ↦ rw blank h
    | inr set ↦ rw set (parsed_or-Is64 (trim_space (getenv key)) fallback h)
  ]

  from_env-IsLoaded :
      (from_env getenv).database_url ≢ []
      → (from_env getenv).kafka_brokers ≢ []
      → IsLoaded (from_env getenv)
  unfolding from_env split_csv
  from_env-IsLoaded database brokers = record {
    has_database = database;
    has_broker = brokers;
    brokers_filled = trimmed_parts-filled _;
    origins_filled = trimmed_parts-filled _;
    has_address = env-filled _ _ (ground arith);
    has_bucket = env-filled _ _ (ground arith);
    has_upload_topic = env-filled _ _ (ground arith);
    has_delete_topic = env-filled _ _ (ground arith);
    has_group = env-filled _ _ (ground arith);
    upload_limit = env_int64-Is64 _ _ (omega arith);
    rate = env_int-Is64 _ _ (omega arith);
  }

  -- Loading fails where DATABASE_URL is blank or no entry is left of the list KAFKA_BROKERS (or of
  -- its default, where that is blank), and says which. Where neither is so, it gives a configuration
  -- whose database and brokers are those of the environment, with an address, a bucket, a group and
  -- topics, none of them empty, and with limits within 64 bits.
  pub load-cases :
      ((trim_space (getenv (text "DATABASE_URL")) ≡ [])
        × (load getenv ≡ err (message (text "DATABASE_URL is required"))))
      ⊎ ((trim_space (getenv (text "DATABASE_URL")) ≢ [])
          × (split_csv (env getenv (text "KAFKA_BROKERS") (text "localhost:9094")) ≡ [])
          × (load getenv ≡ err (message (text "KAFKA_BROKERS is required"))))
      ⊎ ((trim_space (getenv (text "DATABASE_URL")) ≢ [])
          × (split_csv (env getenv (text "KAFKA_BROKERS") (text "localhost:9094")) ≢ [])
          × ((cfg : Config) × (load getenv ≡ ok cfg)
              × (cfg.database_url ≡ trim_space (getenv (text "DATABASE_URL")))
              × (cfg.kafka_brokers
                  ≡ split_csv (env getenv (text "KAFKA_BROKERS") (text "localhost:9094")))
              × IsLoaded cfg))
  unfolding load from_env
  load-cases =
      let cfg = from_env getenv in
      elim (Bool-cases (cfg.database_url == [])) [
        | inl blank ↦
            inl (
              sym (env-blank (text "DATABASE_URL")) ∙ (eq_iff cfg.database_url []).0 blank,
              rw blank,
            )
        | inr set ↦ inr (elim (Bool-cases (length cfg.kafka_brokers == 0)) [
          | inl none_left ↦ inl (
            λ e. filled set (env-blank (text "DATABASE_URL") ∙ e),
            empty_of_length cfg.kafka_brokers none_left,
            rw (set, none_left),
          )
          | inr some_left ↦ inr (
            λ e. filled set (env-blank (text "DATABASE_URL") ∙ e),
            some_of_length cfg.kafka_brokers some_left,
            (
              cfg,
              rw (set, some_left),
              env-blank (text "DATABASE_URL"),
              refl,
              from_env-IsLoaded (filled set) (some_of_length cfg.kafka_brokers some_left),
            ),
          )
        ])
      ]
