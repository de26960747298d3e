-- ===== src/Store/Laws.antt =====
-- The store handlers of services/api-server/internal/server/server.go: what is put is got, and the
-- items of one project are out of reach of another.
use langopen.Prelude.{
  ℕ, ◌≡◌, refl, ap, Bool, true, false, ◌&&◌, ◌||◌, not, Option, none, some, List, [], ◌∷◌, ◌++◌,
  find, keep, any, nat_eq, arith, if◌then◌else◌, Bool-cases, inl, inr,
}
use langopen.Prelude.Maps.{lookup, lookup-insert}
use langopen.Prelude.Text.{Codes, codes_eq, codes_eq_refl, codes_eq→≡, trim_codes}
use langopen.Json.{Json}
use langopen.Store.{
  StoreRecord, ItemTable, Items, StoreResponse, item_response, items_response, done_response,
  store_error, store_key, scoped_namespace, is_item, upsert, lacks_name, bad_item, or_new, put_item,
  put_store_item, get_item, get_store_item, delete_store_item, delete_item,
}

abbrev pub items_reachable : Option ItemTable → Bool
items_reachable none = true
items_reachable (some t) = t.reachable

-- The value and the metadata that a response shows.
abbrev pub shown : StoreResponse → Option (Json × Json)
shown (item_response code row) = some (row.value, row.metadata)
shown (items_response rows) = none
shown done_response = none
shown (store_error code e) = none

abbrev pub IsUpdated : StoreRecord → Option StoreRecord → Type 0
IsUpdated new o =
    (row : StoreRecord) × (o ≡ some row) × (row.value ≡ new.value) × (row.metadata ≡ new.metadata)

upsert-IsUpdated :
    (new : StoreRecord) (rows : List StoreRecord)
    → IsUpdated new (find (is_item new.namespace new.key) (upsert new rows))
unfolding upsert
upsert-IsUpdated new [] =
    rw (codes_eq_refl new.namespace, codes_eq_refl new.key) (new, refl, refl, refl)
upsert-IsUpdated new (row ∷ rows) = elim (Bool-cases (is_item new.namespace new.key row)) [
  | inl e ↦ rw (e, e) (_, refl, refl, refl)
  | inr e ↦ rw (e, e) (upsert-IsUpdated new rows)
]

-- Another item is where it was.
abbrev pub same_item : Codes → Codes → Codes → Codes → Bool
same_item n k m j = codes_eq n m && codes_eq k j

is_item-other :
    (n k m j : Codes) (row : StoreRecord)
    → same_item n k m j ≡ false
    → is_item n k row ≡ true
    → is_item m j row ≡ false
is_item-other n k m j row h e =
    ground (arith, h, e, codes_eq→≡ row.namespace n, codes_eq→≡ row.key k)

upsert-other :
    (new : StoreRecord) (m j : Codes) (rows : List StoreRecord)
    → same_item new.namespace new.key m j ≡ false
    → find (is_item m j) (upsert new rows) ≡ find (is_item m j) rows
unfolding upsert
upsert-other new m j [] h = rw h refl
upsert-other new m j (row ∷ rows) h = elim (Bool-cases (is_item new.namespace new.key row)) [
  | inl e ↦ rw (e, is_item-other new.namespace new.key m j row h e) refl
  | inr e ↦ rw e (ap (λ o. if is_item m j row then some row else o) (upsert-other new m j rows h))
]

keep-other :
    (n k m j : Codes) (rows : List StoreRecord)
    → same_item n k m j ≡ false
    → find (is_item m j) (keep (λ row. not (is_item n k row)) rows) ≡ find (is_item m j) rows
keep-other n k m j [] h = refl
keep-other n k m j (row ∷ rows) h = elim (Bool-cases (is_item n k row)) [
  | inl e ↦ rw (e, is_item-other n k m j row h e) (keep-other n k m j rows h)
  | inr e ↦ rw e (ap (λ o. if is_item m j row then some row else o) (keep-other n k m j rows h))
]

cons_inj : {c d : ℕ} {s t : Codes} → c ∷ s ≡ d ∷ t → (c ≡ d) × (s ≡ t)
cons_inj h = (cc h, cc h)

or_right : (a b : Bool) → (a || b) ≡ false → b ≡ false
or_right true b h = cc h
or_right false b h = h

-- A scope can be told from its namespace when no project's id has a colon.
colon_first :
    (p q n m : Codes)
    → any (nat_eq b':') p ≡ false
    → any (nat_eq b':') q ≡ false
    → p ++ (b':' ∷ n) ≡ q ++ (b':' ∷ m)
    → p ≡ q
colon_first [] [] n m hp hq e = refl
colon_first [] (d ∷ q) n m hp hq e = let (a, b) = cons_inj e in ground (arith, a, hq)
colon_first (c ∷ p) [] n m hp hq e = let (a, b) = cons_inj e in ground (arith, a, hp)
colon_first (c ∷ p) (d ∷ q) n m hp hq e =
    let (a, b) = cons_inj e in
    let rest =
      colon_first p q n m (or_right (nat_eq b':' c) _ hp) (or_right (nat_eq b':' d) _ hq) b in
    cc (a, rest)

-- An id that names a project: not blank, and without a colon.
pub record IsProject (p : Codes) : Type 0 where
  pub named : codes_eq (trim_codes p) [] ≡ false
  pub plain : any (nat_eq b':') (trim_codes p) ≡ false

pub scopes-apart :
    (p q n m : Codes)
    → IsProject p
    → IsProject q
    → codes_eq (trim_codes p) (trim_codes q) ≡ false
    → codes_eq (scoped_namespace p n) (scoped_namespace q m) ≡ false
unfolding scoped_namespace
scopes-apart p q n m hp hq h =
    elim (Bool-cases (codes_eq (scoped_namespace p n) (scoped_namespace q m))) [
      | inr e ↦ e
      | inl e ↦
          let f = codes_eq→≡ _ _ (rw (hp.named, hq.named) at e) in
          let same = colon_first (trim_codes p) (trim_codes q) n m hp.plain hq.plain f in
          cc (codes_eq_refl (trim_codes p), h, same)
    ]

or_new-value :
    (new : StoreRecord) (o : Option StoreRecord)
    → ((or_new new o).value ≡ new.value) × ((or_new new o).metadata ≡ new.metadata)
or_new-value new none = (refl, refl)
or_new-value new (some row) = (refl, refl)

shown-pair :
    (row new : StoreRecord)
    → row.value ≡ new.value
    → row.metadata ≡ new.metadata
    → shown (item_response 200 row) ≡ some (new.value, new.metadata)
shown-pair row new a b = rw (a, b) refl

shown-put :
    (project_id : Codes) (new : StoreRecord) (t : Option ItemTable) (items : Items)
    → items.table ≡ t
    → items_reachable t ≡ true
    → let after = (put_item project_id new t items).1 in
      shown (get_item project_id new.namespace new.key after.table after.memory)
      ≡ some (new.value, new.metadata)
shown-put project_id new none items e r =
    let old = lookup (store_key new.namespace new.key) items.memory in
    let (v, m) = or_new-value new old in
    rw (e, lookup-insert (store_key new.namespace new.key) (or_new new old) items.memory)
      (shown-pair (or_new new old) new v m)
shown-put project_id new (some t) items e r =
    let scoped : StoreRecord = record new {
      namespace = scoped_namespace project_id new.namespace;
    } in
    let (row, f, v, m) = upsert-IsUpdated scoped t.rows in rw (r, f) (shown-pair row new v m)

-- What is put is got: a client that puts an item, on a store that is reachable, and asks for it
-- under the same project, namespace and key, is shown the value and the metadata that it put.
pub get_store_item-put_store_item :
    (project_id : Codes) (new : StoreRecord) (items : Items)
    → lacks_name (trim_codes new.namespace) (trim_codes new.key) ≡ false
    → items_reachable items.table ≡ true
    → shown
        (get_store_item project_id new.namespace new.key (put_store_item project_id new items).1)
      ≡ some (new.value, new.metadata)
unfolding put_store_item get_store_item
get_store_item-put_store_item project_id new items h r = rw h (
    shown-put project_id
      (record new { namespace = trim_codes new.namespace; key = trim_codes new.key }) items.table
      items refl r)

module _ (p q : Codes) (m j : Codes) (t : ItemTable) (memory : List (Codes × StoreRecord))
    (hp : IsProject p) (hq : IsProject q) (h : codes_eq (trim_codes p) (trim_codes q) ≡ false) where
  abbrev items_of : Items
  items_of = record { table = some t; memory = memory }

  apart : (n k : Codes) → same_item (scoped_namespace p n) k (scoped_namespace q m) j ≡ false
  apart n k = rw (scopes-apart p q n m hp hq h) refl

  put_item-apart :
      (new : StoreRecord)
      → let after = (put_item p new (some t) items_of).1 in
        get_item q m j after.table after.memory ≡ get_item q m j (some t) memory
  put_item-apart new = elim (Bool-cases t.reachable) [
    | inr r ↦ rw r refl
    | inl r ↦
        rw
          (
            r,
            upsert-other (record new { namespace = scoped_namespace p new.namespace })
                (scoped_namespace q m) j t.rows (apart new.namespace new.key),
          )
          refl
  ]

  delete_item-apart :
      (n k : Codes)
      → let after = (delete_item p n k (some t) items_of).1 in
        get_item q m j after.table after.memory ≡ get_item q m j (some t) memory
  delete_item-apart n k = elim (Bool-cases t.reachable) [
    | inr r ↦ rw r refl
    | inl r ↦ elim (Bool-cases (any (is_item (scoped_namespace p n) k) t.rows)) [
      | inr a ↦ rw (r, a) refl
      | inl a ↦
          rw (r, a, keep-other (scoped_namespace p n) k (scoped_namespace q m) j t.rows (apart n k))
            refl
    ]
  ]

-- An item of a project is out of reach of another: over Postgres, what a client of one project puts
-- or deletes leaves what a client of the other is answered when it gets an item by its namespace and
-- key as it was, if the ids of both are not blank, differ by more than the space around them, and
-- have no colon.
pub store_items_apart :
    (p q : Codes) (new : StoreRecord) (namespace key other_namespace other_key : Codes)
    (t : ItemTable) (memory : List (Codes × StoreRecord))
    → IsProject p
    → IsProject q
    → codes_eq (trim_codes p) (trim_codes q) ≡ false
    → let items : Items = record { table = some t; memory = memory } in
      let answer = get_store_item q other_namespace other_key in
      (answer (put_store_item p new items).1 ≡ answer items)
      × (answer (delete_store_item p namespace key items).1 ≡ answer items)
unfolding put_store_item get_store_item delete_store_item
store_items_apart p q new namespace key other_namespace other_key t memory hp hq h =
    let m = trim_codes other_namespace in
    let j = trim_codes other_key in
    let trimmed : StoreRecord = record new {
      namespace = trim_codes new.namespace;
      key = trim_codes new.key;
    } in
    let put = put_item-apart p q m j t memory hp hq h trimmed in
    let delete =
      delete_item-apart p q m j t memory hp hq h (trim_codes namespace) (trim_codes key) in
    (
      elim (Bool-cases (lacks_name trimmed.namespace trimmed.key)) [
        | inl e ↦ rw e refl
        | inr e ↦ rw e (ap (λ r. if lacks_name m j then bad_item else r) put)
      ],
      elim (Bool-cases (lacks_name (trim_codes namespace) (trim_codes key))) [
        | inl e ↦ rw e refl
        | inr e ↦ rw e (ap (λ r. if lacks_name m j then bad_item else r) delete)
      ],
    )
