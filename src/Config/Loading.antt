-- ===== src/Config/Loading.antt =====
-- `Load` and `Validate` as their caller sees them. (internal/config/config.go)
use mathlib.Core.List.{reverse-append}
use leasewebassignment.Base.{
  ◌-◌, ◌≤◌, true, false, [], ◌∷◌, ◌++◌, reverse, ◌≡◌, ◌≢◌, refl, sym, ap, ◌∙◌, ◌⊎◌, inl, inr, arith,
  if◌then◌else◌, Bool-cases, Option-cases, Result, ok, Result-cases, >>=-eq-ok, ok-injective, take,
  drop, length, length-append, drop-append, length-drop, take-append-drop,
}
use leasewebassignment.Base.Int.{pos, leb_ℤ, ◌<ℤ◌}
use leasewebassignment.Text.{Bytes, codes, same, is_empty}
use leasewebassignment.Text.Laws.{same_iff, same_self}
use leasewebassignment.Text.Case.{Unicode}
use leasewebassignment.Text.Decimal.{atoi}
use leasewebassignment.Errors.{Error}
use leasewebassignment.Config.{
  Config, AppConfig, ServerConfig, Decoders, Environment, last_five_are, decode, override_token,
  override_port, apply_env_overrides, validate, checked, load,
}
use leasewebassignment.Config.Validity.{IsValid, validate_iff}

-- The settings in which the environment goes before the file, and the others, which are the file's.
pub record Overridden (getenv : Environment) (decoded c : Config) : Type 0 where
  pub token_is : c.app.admin_token ≡ (
      if is_empty (getenv (codes "ADMIN_TOKEN"))
      then decoded.app.admin_token
      else getenv (codes "ADMIN_TOKEN"))
  pub port_is :
      ((getenv (codes "PORT") ≡ []) × (c.server.port ≡ decoded.server.port))
      ⊎ ((atoi (getenv (codes "PORT")) ≡ ok c.server.port) × (pos 0 <ℤ c.server.port))
  pub host_is : c.server.host ≡ decoded.server.host
  pub timeout_is : c.server.timeout ≡ decoded.server.timeout
  pub data_file_is : c.app.data_file ≡ decoded.app.data_file
  pub upload_dir_is : c.app.upload_dir ≡ decoded.app.upload_dir
  pub logging_is : c.app.logging ≡ decoded.app.logging
  pub allowed_ram_is : c.app.allowed_ram ≡ decoded.app.allowed_ram
  pub allowed_disk_types_is : c.app.allowed_disk_types ≡ decoded.app.allowed_disk_types

last_five-reverse :
    (path suffix : Bytes)
    → last_five_are path suffix ≡ true
    → (front : Bytes) × (path ≡ front ++ suffix) × (length suffix ≡ 5)
unfolding last_five_are
last_five-reverse path suffix h =
    let (long, equal) : (5 ≤ length path) × (same (drop (length path - 5) path) suffix ≡ true) =
      ground arith in
    let tail = (same_iff (drop (length path - 5) path) suffix).0 equal in
    (
      take (length path - 5) path,
      sym (take-append-drop (length path - 5) path) ∙ ap (◌++◌ (take (length path - 5) path)) tail,
      omega (arith, ap length tail, length-drop (length path - 5) path),
    )

not_yml : (path : Bytes) → last_five_are path (codes ".yml") ≡ false
not_yml path = elim (Bool-cases (last_five_are path (codes ".yml"))) [
  | inl h ↦
      absurd (let (_, _, four) = last_five-reverse path (codes ".yml") h in omega (arith, four))
  | inr h ↦ h
]

different_ends : (path front : Bytes) → path ++ codes ".yml" ≢ front ++ codes ".yaml"
different_ends path front e =
    let ends : b'l' ∷ b'm' ∷ b'y' ∷ (b'.' ∷ reverse path)
        ≡ b'l' ∷ b'm' ∷ b'a' ∷ b'y' ∷ (b'.' ∷ reverse front) =
      sym (reverse-append path (codes ".yml"))
      ∙ ap reverse e
      ∙ reverse-append front (codes ".yaml") in
    ground arith

decode-yaml :
    (dec : Decoders) (path content : Bytes)
    → decode dec path content
      ≡ (if last_five_are path (codes ".yaml") then dec.yaml content else dec.json content)
unfolding decode
decode-yaml dec path content = rw (not_yml path)

-- `.yaml` stands at the end of the path, and only then do the last five bytes say so.
last_five-yaml : (front : Bytes) → last_five_are (front ++ codes ".yaml") (codes ".yaml") ≡ true
unfolding last_five_are
last_five-yaml front =
    let long = length-append front (codes ".yaml") in
    let tail : drop (length (front ++ codes ".yaml") - 5) (front ++ codes ".yaml") ≡ codes ".yaml" =
      ap (λ n. drop n (front ++ codes ".yaml")) (omega (arith, long))
      ∙ drop-append front (codes ".yaml") in
    rw (tail, same_self (codes ".yaml")) (ground (arith, long))

-- A path that ends in ".yaml" is decoded as YAML, every other path as JSON; that is so for one that
-- ends in ".yml" too.
pub decode_lem :
    (dec : Decoders) (path content : Bytes)
    → (((front : Bytes) × (path ≡ front ++ codes ".yaml")
          × (decode dec path content ≡ dec.yaml content))
        ⊎ (((front : Bytes) → path ≢ front ++ codes ".yaml")
            × (decode dec path content ≡ dec.json content)))
      × (decode dec (path ++ codes ".yml") content ≡ dec.json content)
decode_lem dec path content = (
  elim (Bool-cases (last_five_are path (codes ".yaml"))) [
    | inl yaml_path ↦
        let (front, ends, _) = last_five-reverse path (codes ".yaml") yaml_path in
        inl (front, ends, decode-yaml dec path content ∙ rw yaml_path refl)
    | inr json_path ↦ inr (
      λ front ends. absurd (
          cc (
            sym json_path ∙ ap (λ p. last_five_are p (codes ".yaml")) ends ∙ last_five-yaml front)),
      decode-yaml dec path content ∙ rw json_path refl,
    )
  ],
  decode-yaml dec (path ++ codes ".yml") content
      ∙ elim (Bool-cases (last_five_are (path ++ codes ".yml") (codes ".yaml"))) [
        | inr json_path ↦ rw json_path
        | inl yaml_path ↦
            let (front, ends, _) =
              last_five-reverse (path ++ codes ".yml") (codes ".yaml") yaml_path in
            absurd (different_ends path front ends)
      ],
)

override_token_lem :
    (getenv : Environment) (c : Config)
    → ((override_token getenv c).app.admin_token ≡ (
        if is_empty (getenv (codes "ADMIN_TOKEN"))
        then c.app.admin_token
        else getenv (codes "ADMIN_TOKEN")))
      × ((override_token getenv c).server ≡ c.server)
      × ((override_token getenv c).app
          ≡ record c.app { admin_token = (override_token getenv c).app.admin_token })
unfolding override_token
override_token_lem getenv c = elim (Bool-cases (is_empty (getenv (codes "ADMIN_TOKEN")))) [
  | inl unset ↦ rw (unset, override_token) (refl, refl, refl)
  | inr given ↦ rw (given, override_token) (refl, refl, refl)
]

is_empty-nil : (s : Bytes) → is_empty s ≡ true → s ≡ []
is_empty-nil [] h = refl
is_empty-nil (c ∷ s) h = cc

PortIs : Environment → ServerConfig → ServerConfig → Type 0
PortIs getenv decoded s =
    ((getenv (codes "PORT") ≡ []) × (s.port ≡ decoded.port))
    ⊎ ((atoi (getenv (codes "PORT")) ≡ ok s.port) × (pos 0 <ℤ s.port))

override_port_lem :
    ⦃U : Unicode⦄ (getenv : Environment) (before c : Config)
    → override_port getenv before ≡ ok c
    → (c.app ≡ before.app)
      × PortIs getenv before.server c.server
      × (c.server ≡ record before.server { port = c.server.port })
unfolding override_port PortIs
override_port_lem getenv before c e = elim (Bool-cases (is_empty (getenv (codes "PORT")))) [
  | inl unset ↦
      let same_config : before ≡ c = ok-injective (rw (unset, override_port) at e) in
      (
        ap (λ (k : Config). k.app) (sym same_config),
        inl (
          is_empty-nil (getenv (codes "PORT")) unset,
          ap (λ (k : Config). k.server.port) (sym same_config),
        ),
        rw (← same_config) refl,
      )
  | inr given ↦ elim (Result-cases (atoi (getenv (codes "PORT")))) [
    | inr (why, bad) ↦ absurd (cc (rw (given, bad, override_port) at e))
    | inl (port, read) ↦ elim (Bool-cases (leb_ℤ port (pos 0))) [
      | inl low ↦ absurd (cc (rw (given, read, low, override_port) at e))
      | inr high ↦
          let same_config : record before { server = record before.server { port = port } } ≡ c =
            ok-injective (rw (given, read, high, override_port) at e) in
          (
            ap (λ (k : Config). k.app) (sym same_config),
            inr (rw (← same_config) (read, ground arith)),
            rw (← same_config) refl,
          )
    ]
  ]
]

apply_env_overrides-Overridden :
    ⦃U : Unicode⦄ (getenv : Environment) (decoded c : Config)
    → apply_env_overrides getenv decoded ≡ ok c
    → Overridden getenv decoded c
unfolding apply_env_overrides PortIs
apply_env_overrides-Overridden getenv decoded c e =
    let (token, server, rest) = override_token_lem getenv decoded in
    let (app, port, others) = override_port_lem getenv (override_token getenv decoded) c e in
    record {
      token_is = ap (λ (a : AppConfig). a.admin_token) app ∙ token;
      port_is = rw server at port;
      host_is = ap (λ (k : ServerConfig). k.host) others ∙ ap (λ (k : ServerConfig). k.host) server;
      timeout_is =
          ap (λ (k : ServerConfig). k.timeout) others ∙ ap (λ (k : ServerConfig). k.timeout) server;
      data_file_is = ap (λ (a : AppConfig). a.data_file) (app ∙ rest);
      upload_dir_is = ap (λ (a : AppConfig). a.upload_dir) (app ∙ rest);
      logging_is = ap (λ (a : AppConfig). a.logging) (app ∙ rest);
      allowed_ram_is = ap (λ (a : AppConfig). a.allowed_ram) (app ∙ rest);
      allowed_disk_types_is = ap (λ (a : AppConfig). a.allowed_disk_types) (app ∙ rest);
    }

checked_ok : (a c : Config) → checked a ≡ ok c → (a ≡ c) × IsValid c
checked_ok a c e = elim (Option-cases (validate a)) [
  | inr (x, bad) ↦ absurd (cc (rw (bad, checked) at e))
  | inl good ↦
      let same_config : a ≡ c = ok-injective (rw (good, checked) at e) in
      (same_config, rw (← same_config) ((validate_iff a).0 good))
]

-- A configuration that loads was read and decoded, has the admin token and the port of the
-- environment where it sets them, and everything else as it was decoded, and is valid.
pub load_ok :
    ⦃U : Unicode⦄ (dec : Decoders) (getenv : Environment) (path : Bytes) (read : Result Error Bytes)
    (c : Config)
    → load dec getenv path read ≡ ok c
    → (content : Bytes) × (decoded : Config) × (read ≡ ok content)
      × (decode dec path content ≡ ok decoded)
      × Overridden getenv decoded c
      × IsValid c
unfolding load
load_ok dec getenv path read c e =
    let (content, got, e₁) = >>=-eq-ok read _ e in
    let (decoded, at_decoded, e₂) = >>=-eq-ok (decode dec path content) _ e₁ in
    let (overridden, at_env, e₃) = >>=-eq-ok (apply_env_overrides getenv decoded) _ e₂ in
    let (same_config, valid) = checked_ok overridden c e₃ in
    (
      content,
      decoded,
      got,
      at_decoded,
      apply_env_overrides-Overridden getenv decoded c (at_env ∙ ap ok same_config),
      valid,
    )
