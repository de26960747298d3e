-- ===== src/Auth/Lifetime.antt =====
-- The life of an API key between the handlers of
-- services/control-plane/internal/httpapi/httpapi.go that create and revoke it and the check
-- `validateAPIKey` of both services.
use mathlib.Core.Path.{subst}
use langopen.Prelude.{
  ◌≢◌, ◌⊎◌, eq_iff, ℕ, ◌≡◌, refl, ◌∙◌, ap, String, true, false, Option, none, some, List, [], ◌∷◌,
  Memᴰ, ◌==◌, map, any, find, arith, eq_refl, Bool-cases, inl, inr,
}
use langopen.Auth.{ApiKeyRow, is_live_key, project_of, validate_api_key}
use langopen.Auth.Control.{resolve_project_id}
use langopen.Auth.Keys.{
  KeyRow, KeyTable, KeyState, KeyAnswer, keys_listed, key_created, key_revoked, key_refused,
  live_columns, as_store, insert_key, inserted, store_key, new_key, create_generated,
  create_resolved, create_api_key, is_revocable, revoke_rows, revoke_stored, revoke_resolved,
  revoke_api_key, generated,
}

some_inj : {A : Type 0} {x y : A} → some x ≡ some y → x ≡ y
some_inj h = cc h

trans_some : {A : Type 0} {x y z : Option A} → x ≡ y → y ≡ z → x ≡ z
trans_some a b = a ∙ b

-- The check against the keys of a state.
abbrev pub validated : (String → String) → Option KeyTable → String → Option String
validated hash none raw = none
validated hash (some t) raw = validate_api_key hash (as_store t) raw

insert_key-validated :
    (hash : String → String) (row : KeyRow) (raw : String) (t : KeyTable) (o : Option KeyTable)
    → insert_key row t ≡ o
    → row.key_hash ≡ hash raw
    → row.revoked_at ≡ none
    → (t' : KeyTable) → o ≡ some t'
    → validated hash (some t') raw ≡ some row.project_id
unfolding insert_key validate_api_key
insert_key-validated hash row raw t o i e f t' h = elim (Bool-cases t.reachable) [
  | inr a ↦ cc (rw a at i, h)
  | inl a ↦ elim (Bool-cases (any (λ r. r.id == row.id) t.rows)) [
    | inl b ↦ cc (rw (a, b) at i, h)
    | inr b ↦ elim (Bool-cases (any (λ p. p == row.project_id) t.projects)) [
      | inr c ↦ cc (rw (a, b, c) at i, h)
      | inl c ↦
          let stored : KeyTable = record {
            rows = row ∷ t.rows;
            projects = t.projects;
            reachable = true;
          } in
          let same : some stored ≡ o = rw (a, b, c) at i in
          let at : stored ≡ t' = some_inj (trans_some same h) in
          subst (λ u. validated hash (some u) raw ≡ some row.project_id) at
            (rw (e, f, eq_refl (hash raw)) refl)
    ]
  ]
]

-- The text and the project of a key that was made.
abbrev pub IsMade : KeyAnswer → String → String → Type 0
IsMade (key_created row text) raw project = (text ≡ raw) × (row.project_id ≡ project)
IsMade (keys_listed rows) raw project = ⊥
IsMade (key_revoked id) raw project = ⊥
IsMade (key_refused code e) raw project = ⊥

inserted-validated :
    (hash : String → String) (row : KeyRow) (text raw project : String) (t : KeyTable)
    (o : Option KeyTable) (s : KeyState)
    → insert_key row t ≡ o
    → row.key_hash ≡ hash text
    → row.revoked_at ≡ none
    → IsMade (inserted row text o s).0 raw project
    → validated hash (inserted row text o s).1.table raw ≡ some project
inserted-validated hash row text raw project t none s i e f m = elim m [ ]
inserted-validated hash row text raw project t (some t') s i e f (a, b) =
    subst (λ q. validated hash (some t') raw ≡ some q) b
      (insert_key-validated hash row raw t (some t') i (e ∙ ap hash a) f t' refl)

module _ (hash : String → String) (key_id : String) (now : ℕ) where
  stored-validated :
      (row : KeyRow) (text : String) (o : Option KeyTable) (t : KeyTable) (s : KeyState)
      (raw project : String)
      → o ≡ some t
      → row.key_hash ≡ hash text
      → row.revoked_at ≡ none
      → IsMade (store_key row text o s).0 raw project
      → validated hash (store_key row text o s).1.table raw ≡ some project
  stored-validated row text none t s raw project e k f m = cc e
  stored-validated row text (some u) t s raw project e k f m =
      inserted-validated hash row text raw project u (insert_key row u) s refl k f m

  made-validated :
      (project_id name : String) (drawn : Option String) (t : KeyTable) (s : KeyState)
      (raw project : String)
      → s.table ≡ some t
      → IsMade (create_generated hash key_id now project_id name drawn s).0 raw project
      → validated hash (create_generated hash key_id now project_id name drawn s).1.table raw
        ≡ some project
  made-validated project_id name none t s raw project e m = elim m [ ]
  made-validated project_id name (some text) t s raw project e m =
      stored-validated (new_key key_id now project_id name (hash text)) text s.table t s raw project
        e refl refl m

  resolved-validated :
      (o : Option String) (name : String) (drawn : Option String) (t : KeyTable) (s : KeyState)
      (raw project : String)
      → s.table ≡ some t
      → IsMade (create_resolved hash key_id now o name drawn s).0 raw project
      → validated hash (create_resolved hash key_id now o name drawn s).1.table raw ≡ some project
  resolved-validated none name drawn t s raw project e m = elim m [ ]
  resolved-validated (some p) name drawn t s raw project e m =
      made-validated p name (generated drawn) t s raw project e m

-- A key that was made over Postgres opens its project: the text that the client is shown is
-- accepted, at once, as a key of the project that the answer names.
pub create_api_key-validated :
    (hash : String → String) (key_id : String) (now : ℕ) (authorized requested name : String)
    (drawn : Option String) (t : KeyTable) (s : KeyState) (raw project : String)
    → s.table ≡ some t
    → IsMade (create_api_key hash key_id now authorized requested name drawn s).0 raw project
    → validated hash (create_api_key hash key_id now authorized requested name drawn s).1.table raw
      ≡ some project
unfolding create_api_key
create_api_key-validated hash key_id now authorized requested name drawn t s raw project e m =
    resolved-validated hash key_id now (resolve_project_id authorized requested) name drawn t s raw
      project e m

revoked-dead :
    (hash : String) (r : KeyRow) (now : ℕ)
    → is_live_key hash (live_columns (record r { revoked_at = some now })) ≡ false
revoked-dead hash r now = ground arith

-- A row that lets a key in and that a revocation does not name.
abbrev Other : String → String → String → List KeyRow → ApiKeyRow → Type 0
Other hash key_id project_id rows row =
    (old : KeyRow) × Memᴰ old rows
    × (live_columns old ≡ row)
    × (is_live_key hash (live_columns old) ≡ true)
    × (is_revocable key_id project_id old ≡ false)

-- After the UPDATE, what the check finds it found before, in a row that was not to be revoked.
revoke_rows-others :
    (hash : String) (key_id : String) (now : ℕ) (project_id : String) (rows : List KeyRow)
    (row : ApiKeyRow)
    → find (is_live_key hash) (map live_columns (revoke_rows key_id now project_id rows)) ≡ some row
    → Other hash key_id project_id rows row
unfolding revoke_rows
revoke_rows-others hash key_id now project_id [] row h = cc h
revoke_rows-others hash key_id now project_id (r ∷ rs) row h =
    elim (Bool-cases (is_revocable key_id project_id r)) [
      | inl e ↦
          let dead = revoked-dead hash r now in
          later (revoke_rows-others hash key_id now project_id rs row (rw dead at (rw e at h)))
      | inr e ↦ elim (Bool-cases (is_live_key hash (live_columns r))) [
        | inl l ↦ (r, Memᴰ.head refl, some_inj (rw l at (rw e at h)), l, e)
        | inr l ↦ later (revoke_rows-others hash key_id now project_id rs row (rw l at (rw e at h)))
      ]
    ]
  where
    later : Other hash key_id project_id rs row → Other hash key_id project_id (r ∷ rs) row
    later (old, m, c, l, n) = (old, Memᴰ.tail m, c, l, n)

-- A row of the key with this hash, not revoked, of a project, that a revocation does not name.
pub record IsSpared (hash key_id scope : String) (rows : List KeyRow) (project : String)
    : Type 0 where
  pub row : KeyRow
  pub listed : Memᴰ row rows
  pub hashed : row.key_hash ≡ hash
  pub live : row.revoked_at ≡ none
  pub owned : row.project_id ≡ project
  pub unnamed : (row.id ≢ key_id) ⊎ ((scope ≢ "") × (row.project_id ≢ scope))

live-row :
    (hash : String) (row : KeyRow)
    → is_live_key hash (live_columns row) ≡ true
    → (row.key_hash ≡ hash) × (row.revoked_at ≡ none)
live-row hash row h = ground (arith, eq_iff row.key_hash hash, h)

named-not :
    (key_id scope : String) (row : KeyRow)
    → row.revoked_at ≡ none
    → is_revocable key_id scope row ≡ false
    → (row.id ≢ key_id) ⊎ ((scope ≢ "") × (row.project_id ≢ scope))
named-not key_id scope row l n = elim (Bool-cases (row.id == key_id)) [
  | inr e ↦ inl (λ same. cc (e, (eq_iff row.id key_id).1 same))
  | inl e ↦ elim (Bool-cases (scope == "")) [
    | inl s ↦ cc (rw (e, l, s) at n)
    | inr s ↦ elim (Bool-cases (row.project_id == scope)) [
      | inl o ↦ cc (rw (e, l, s, o) at n)
      | inr o ↦ inr (
        λ same. cc (s, (eq_iff scope "").1 same),
        λ same. cc (o, (eq_iff row.project_id scope).1 same),
      )
    ]
  ]
]

found-IsSpared :
    (hash key_id : String) (now : ℕ) (scope : String) (rows : List KeyRow) (o : Option ApiKeyRow)
    (project : String)
    → find (is_live_key hash) (map live_columns (revoke_rows key_id now scope rows)) ≡ o
    → project_of o ≡ some project
    → IsSpared hash key_id scope rows project
found-IsSpared hash key_id now scope rows none project f v = cc v
found-IsSpared hash key_id now scope rows (some row) project f v =
    let (old, m, c, l, n) = revoke_rows-others hash key_id now scope rows row f in
    let (hashed, live) = live-row hash old l in
    record {
      row = old;
      listed = m;
      hashed = hashed;
      live = live;
      owned = ap (λ r. r.project_id) c ∙ some_inj v;
      unnamed = named-not key_id scope old live n;
    }

revoked_inj : {a b : String} → key_revoked a ≡ key_revoked b → a ≡ b
revoked_inj h = cc h

module _ (hash : String → String) (now : ℕ) (s : KeyState) (raw project key_id : String) where
  table-IsSpared :
      (named scope : String) (u : KeyTable)
      → (revoke_stored now named scope (some u) s).0 ≡ key_revoked key_id
      → validated hash (revoke_stored now named scope (some u) s).1.table raw ≡ some project
      → IsSpared (hash raw) key_id scope u.rows project
  unfolding validate_api_key
  table-IsSpared named scope u a v = elim (Bool-cases u.reachable) [
    | inr r ↦ cc (rw r at a)
    | inl r ↦ elim (Bool-cases (any (is_revocable named scope) u.rows)) [
      | inr x ↦ cc (rw (r, x) at a)
      | inl x ↦
          subst (λ k. IsSpared (hash raw) k scope u.rows project) (revoked_inj (rw (r, x) at a))
            (found-IsSpared (hash raw) named now scope u.rows _ project refl (rw (r, x) at v))
    ]
  ]

  stored-IsSpared :
      (named scope : String) (o : Option KeyTable) (t : KeyTable)
      → o ≡ some t
      → (revoke_stored now named scope o s).0 ≡ key_revoked key_id
      → validated hash (revoke_stored now named scope o s).1.table raw ≡ some project
      → IsSpared (hash raw) key_id scope t.rows project
  stored-IsSpared named scope none t e a v = cc e
  stored-IsSpared named scope (some u) t e a v =
      subst (λ k. IsSpared (hash raw) key_id scope k.rows project) (some_inj e)
        (table-IsSpared named scope u a v)

  resolved-IsSpared :
      (named scope : String) (t : KeyTable)
      → s.table ≡ some t
      → (revoke_resolved now named (some scope) s).0 ≡ key_revoked key_id
      → validated hash (revoke_resolved now named (some scope) s).1.table raw ≡ some project
      → IsSpared (hash raw) key_id scope t.rows project
  resolved-IsSpared named scope t e a v = elim (Bool-cases (named == "")) [
    | inl b ↦ cc (rw b at a)
    | inr b ↦ stored-IsSpared named scope s.table t e (rw b at a) (rw b at v)
  ]

  scoped-IsSpared :
      (named : String) (o : Option String) (t : KeyTable)
      → s.table ≡ some t
      → (revoke_resolved now named o s).0 ≡ key_revoked key_id
      → validated hash (revoke_resolved now named o s).1.table raw ≡ some project
      → (scope : String) × (o ≡ some scope) × IsSpared (hash raw) key_id scope t.rows project
  scoped-IsSpared named none t e a v = cc a
  scoped-IsSpared named (some scope) t e a v = (scope, refl, resolved-IsSpared named scope t e a v)

-- A key that was revoked is of no use: over Postgres, when the revocation of an id is answered with
-- success, a text that the check accepts afterwards was the key of a row that was in the table before,
-- was not revoked, and is not the one that was revoked: it has another id, or is of a project that
-- the caller may not touch.
pub revoke_api_key-validated :
    (hash : String → String) (now : ℕ) (authorized requested raw_id : String) (t : KeyTable)
    (s : KeyState) (raw project key_id : String)
    → s.table ≡ some t
    → (revoke_api_key now authorized requested raw_id s).0 ≡ key_revoked key_id
    → validated hash (revoke_api_key now authorized requested raw_id s).1.table raw ≡ some project
    → (scope : String) × (resolve_project_id authorized requested ≡ some scope)
      × IsSpared (hash raw) key_id scope t.rows project
unfolding revoke_api_key
revoke_api_key-validated hash now authorized requested raw_id t s raw project key_id e a v =
    scoped-IsSpared hash now s raw project key_id _ _ t e a v
