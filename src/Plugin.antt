-- ===== src/Plugin.antt =====
-- internal/plugin/registry.go: the registry of plugins, by type and name. What a plugin does is
-- outside this code: `P` is the type of plugins, and `metadata` their method.
use redis_meter.Base.{
  ◌≡◌, refl, Option, none, some, List, [], ◌∷◌, ◌++◌, String, str_eq, eq_iff, if◌then◌else◌,
  Option-cases, inl, inr, arith,
}
use redis_meter.Base.Dict.{Dict, get, put, is_some, get-put}

pub record Metadata : Type 0 where
  pub name : String
  pub version : String
  pub kind : String
  pub description : String
  pub author : String
  pub license : String
  pub dependencies : List String

pub data PluginError : Type 0 where
  already_registered not_found : String → String → PluginError
  no_type : String → PluginError

module _ {P : Type 0} (metadata : P → Metadata) where
  abbrev pub Registry : Type 0
  Registry = Dict (Dict P)

  -- A type that is missing has no plugins.
  abbrev pub plugins_or_none : Option (Dict P) → Dict P
  plugins_or_none none = []
  plugins_or_none (some d) = d

  unfoldable pub register : Registry → P → Registry × Option PluginError
  register r p =
      let meta = metadata p in
      let of_type = plugins_or_none (get r meta.kind) in
      if is_some (get of_type meta.name)
      then (put r meta.kind of_type, some (PluginError.already_registered meta.name meta.kind))
      else (put r meta.kind (put of_type meta.name p), none)

  pub data Found : Type 0 where
    found : P → Found
    missing : PluginError → Found

  abbrev pub found_or : Option P → PluginError → Found
  found_or none e = Found.missing e
  found_or (some p) e = Found.found p

  unfoldable pub get_plugin : Registry → String → String → Found
  get_plugin r t name = elim (get r t) [
    | none ↦ Found.missing (PluginError.no_type t)
    | some d ↦ found_or (get d name) (PluginError.not_found name t)
  ]

  abbrev pub values : Dict P → List P
  values [] = []
  values ((k, p) ∷ d) = p ∷ values d

  unfoldable pub list : Registry → String → List P
  list r t = values (plugins_or_none (get r t))

  unfoldable pub list_all : Registry → List P
  list_all [] = []
  list_all ((t, d) ∷ r) = values d ++ list_all r

  -- The plugin at a type and a name.
  abbrev pub lookup : Registry → String → String → Option P
  lookup r t name = get (plugins_or_none (get r t)) name

  registered :
      (r : Registry) (k t own name : String) (p : P)
      → lookup r k own ≡ none
      → get
          (plugins_or_none
            (if str_eq k t then some (put (plugins_or_none (get r k)) own p) else get r t))
          name
        ≡ (if str_eq k t
            then (if str_eq own name
                then elim (lookup r t name) [ none ↦ some p | some q ↦ some q ]
                else lookup r t name)
            else lookup r t name)
  registered r k t own name p e =
      ground (arith, eq_iff k t, eq_iff own name, get-put (plugins_or_none (get r k)) own name p)

  kept :
      (r : Registry) (k t own name : String) (p q : P)
      → lookup r k own ≡ some q
      → get
          (plugins_or_none (if str_eq k t then some (plugins_or_none (get r k)) else get r t))
          name
        ≡ (if str_eq k t
            then (if str_eq own name
                then elim (lookup r t name) [ none ↦ some p | some x ↦ some x ]
                else lookup r t name)
            else lookup r t name)
  kept r k t own name p q e = ground (arith, eq_iff k t, eq_iff own name)

  -- `Register` of a plugin whose type and name are taken is refused and changes what no type and
  -- name finds; any other plugin is found at its type and name afterwards, and what the other types
  -- and names find is as before.
  pub register_effect :
      (r : Registry) (p : P) (t name : String)
      → lookup (register r p).0 t name ≡ (
          if str_eq (metadata p).kind t
          then (if str_eq (metadata p).name name
              then elim (lookup r t name) [ none ↦ some p | some q ↦ some q ]
              else lookup r t name)
          else lookup r t name)
        × ((register r p).1 ≡ (
            if is_some (lookup r (metadata p).kind (metadata p).name)
            then some (PluginError.already_registered (metadata p).name (metadata p).kind)
            else none))
  unfolding register
  register_effect r p t name =
      let meta = metadata p in
      let of_type = plugins_or_none (get r meta.kind) in
      elim (Option-cases (get of_type meta.name)) [
        | inl e ↦
            rw (e, register, get-put r meta.kind t (put of_type meta.name p))
              (registered r meta.kind t meta.name name p e, refl)
        | inr (q, e) ↦
            rw (e, register, get-put r meta.kind t of_type)
              (kept r meta.kind t meta.name name p q e, refl)
      ]
