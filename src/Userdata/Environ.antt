-- ===== src/Userdata/Environ.antt =====
-- internal/userdata/userdata.go: the variables that are passed on to the container.
use nsbox.Base.{
  Text, List, [], ◌∷◌, ◌++◌, codes, map, Bool, Option, none, some, contains, str_eq, str_eq_iff,
  split_once, split_once-Lacks, Lacks, All, if◌then◌else◌, Dict, lookup, insert, lookup-insert,
  Result, ok, panic, ◌>>=◌, ◌≡◌, refl, ◌∙◌, ap, arith, Bool-cases, inl, inr,
}

abbrev pub whitelisted_env_names : List Text
whitelisted_env_names =
    codes "COLORTERM"
    ∷ codes "DBUS_SESSION_BUS_ADDRESS"
    ∷ codes "DBUS_SYSTEM_BUS_ADDRESS"
    ∷ codes "DESKTOP_SESSION"
    ∷ codes "DISPLAY"
    ∷ codes "GDK_SCALE"
    ∷ codes "GDK_DPI_SCALE"
    ∷ codes "LANG"
    ∷ codes "SHELL"
    ∷ codes "SSH_AUTH_SOCK"
    ∷ codes "TERM"
    ∷ codes "VTE_VERSION"
    ∷ codes "WAYLAND_DISPLAY"
    ∷ codes "XDG_CURRENT_DESKTOP"
    ∷ codes "XDG_DATA_DIRS"
    ∷ codes "XDG_MENU_PREFIX"
    ∷ codes "XDG_RUNTIME_DIR"
    ∷ codes "XDG_SEAT"
    ∷ codes "XDG_SESSION_DESKTOP"
    ∷ codes "XDG_SESSION_ID"
    ∷ codes "XDG_SESSION_TYPE"
    ∷ codes "XDG_VTNR"
    ∷ []

unfoldable pub is_whitelisted : Text → Bool
is_whitelisted name = contains whitelisted_env_names name

abbrev two_parts : Text × Option Text → Result (Text × Text)
two_parts (name, none) = panic (codes "index out of range")
two_parts (name, some value) = ok (name, value)

-- SplitEnv: without a `=` the second index is out of range.
unfoldable pub split_env : Text → Result (Text × Text)
split_env env = two_parts (split_once b'=' env)

-- WhitelistedEnviron, over what os.Environ returns.
unfoldable pub whitelisted_environ : List Text → Result (List Text)
whitelisted_environ [] = ok []
whitelisted_environ (env ∷ environ) = do
  (name, value) ← split_env env
  rest ← whitelisted_environ environ
  ok (if is_whitelisted name then env ∷ rest else rest)

-- The loop of parseEnviron.
unfoldable pub parse_loop : Dict Text → List Text → Result (Dict Text)
parse_loop result [] = ok result
parse_loop result (env ∷ environ) = do
  (name, value) ← split_env env
  parse_loop (insert name value result) environ

unfoldable pub parse_environ : List Text → Result (Dict Text)
parse_environ environ = do envs ← whitelisted_environ environ; parse_loop [] envs

-- A variable as os.Environ writes it.
abbrev pub entry : Text × Text → Text
entry (name, value) = name ++ (b'=' ∷ value)

-- No name holds `=`.
abbrev pub Named : List (Text × Text) → Type 0
Named = All (λ v. Lacks b'=' v.0)

abbrev pub allowed : List (Text × Text) → List (Text × Text)
allowed [] = []
allowed (v ∷ vs) = let rest = allowed vs in if is_whitelisted v.0 then v ∷ rest else rest

-- The value of the last variable of that name, or else the value given.
abbrev pub last_value : Text → Option Text → List (Text × Text) → Option Text
last_value k old [] = old
last_value k old ((name, value) ∷ vs) = last_value k (if str_eq name k then some value else old) vs

pub split_env-entry :
    (name value : Text) → Lacks b'=' name → split_env (entry (name, value)) ≡ ok (name, value)
unfolding split_env
split_env-entry name value h = ap two_parts (split_once-Lacks b'=' name value h)

pub whitelisted_environ-allowed :
    (vs : List (Text × Text))
    → Named vs
    → whitelisted_environ (map entry vs) ≡ ok (map entry (allowed vs))
unfolding whitelisted_environ
whitelisted_environ-allowed [] h = refl
whitelisted_environ-allowed ((name, value) ∷ vs) h =
    rw (split_env-entry name value h.0, whitelisted_environ-allowed vs h.1)
      (elim (Bool-cases (is_whitelisted name)) [ inl p ↦ rw p refl | inr p ↦ rw p refl ])

Named-allowed : (vs : List (Text × Text)) → Named vs → Named (allowed vs)
Named-allowed [] h = tt
Named-allowed ((name, value) ∷ vs) h = elim (Bool-cases (is_whitelisted name)) [
  | inl p ↦ rw p (h.0, Named-allowed vs h.1)
  | inr p ↦ rw p (Named-allowed vs h.1)
]

parse_loop-total :
    (vs : List (Text × Text)) (m : Dict Text)
    → Named vs
    → (r : Dict Text) × (parse_loop m (map entry vs) ≡ ok r)
      × ((k : Text) → lookup k r ≡ last_value k (lookup k m) vs)
unfolding parse_loop
parse_loop-total [] m h = (m, refl, λ k. refl)
parse_loop-total ((name, value) ∷ vs) m h =
    let (r, e, f) = parse_loop-total vs (insert name value m) h.1 in
    (
      r,
      rw (split_env-entry name value h.0) e,
      λ k. f k ∙ ap (λ o. last_value k o vs) (lookup-insert name k value m),
    )

last_value-allowed :
    (vs : List (Text × Text)) (k : Text) (old : Option Text)
    → last_value k old (allowed vs) ≡ (if is_whitelisted k then last_value k old vs else old)
last_value-allowed [] k old = ground arith
last_value-allowed ((name, value) ∷ vs) k old = elim (Bool-cases (is_whitelisted name)) [
  | inl p ↦ rw p (last_value-allowed vs k _ ∙ ground (arith, p, str_eq_iff name k))
  | inr p ↦ rw p (last_value-allowed vs k old ∙ ground (arith, p, str_eq_iff name k))
]

-- From an environment in which each variable has a name without `=`, parseEnviron makes a map and
-- does not panic: a name of the whitelist has the value that stands last, and no other has any.
pub parse_environ_lem :
    (vs : List (Text × Text))
    → Named vs
    → (r : Dict Text) × (parse_environ (map entry vs) ≡ ok r)
      × ((k : Text) → lookup k r ≡ (if is_whitelisted k then last_value k none vs else none))
unfolding parse_environ
parse_environ_lem vs h =
    let (r, e, f) = parse_loop-total (allowed vs) [] (Named-allowed vs h) in
    (
      r,
      rw (whitelisted_environ-allowed vs h) e,
      λ k. f k ∙ unfold lookup in last_value-allowed vs k none,
    )
