-- ===== src/Store/Apart.antt =====
-- The store handlers of services/api-server/internal/server/server.go keep the items of two projects
-- apart, in what they get and in what they list under a namespace.
use langopen.Prelude.{
  ◌≡◌, refl, if◌then◌else◌, Bool, true, false, not, some, List, [], ◌∷◌, keep, any, ap, Bool-cases,
  inl, inr,
}
use langopen.Prelude.Text.{Codes, codes_eq, codes_eq_refl, codes_eq→≡, trim_codes}
use langopen.Store.{
  StoreRecord, ItemTable, Items, scoped_namespace, is_item, upsert, lacks_name, is_listed,
  list_table, list_store_items, put_item, put_store_item, get_store_item, delete_item,
  delete_store_item,
}
use langopen.Store.Laws.{IsProject, scopes-apart, store_items_apart}

-- No row of the namespace is listed.
abbrev Skips : (StoreRecord → Bool) → Codes → Type 0
Skips listed n = (row : StoreRecord) → codes_eq row.namespace n ≡ true → listed row ≡ false

item_namespace :
    (n k : Codes) (row : StoreRecord) → is_item n k row ≡ true → codes_eq row.namespace n ≡ true
item_namespace n k row h = elim (Bool-cases (codes_eq row.namespace n)) [
  | inl e ↦ e
  | inr e ↦ cc (rw e at h)
]

keep-upsert :
    (listed : StoreRecord → Bool) (new : StoreRecord) (rows : List StoreRecord)
    → Skips listed new.namespace
    → keep listed (upsert new rows) ≡ keep listed rows
unfolding upsert
keep-upsert listed new [] h = rw (h new (codes_eq_refl new.namespace)) refl
keep-upsert listed new (row ∷ rows) h = elim (Bool-cases (is_item new.namespace new.key row)) [
  | inl e ↦
      let here = item_namespace new.namespace new.key row e in
      let set : StoreRecord = record row { value = new.value; metadata = new.metadata } in
      rw (e, h row here, h set here) refl
  | inr e ↦
      rw e (ap (λ kept. if listed row then row ∷ kept else kept) (keep-upsert listed new rows h))
]

keep-delete :
    (listed : StoreRecord → Bool) (n k : Codes) (rows : List StoreRecord)
    → Skips listed n
    → keep listed (keep (λ row. not (is_item n k row)) rows) ≡ keep listed rows
keep-delete listed n k [] h = refl
keep-delete listed n k (row ∷ rows) h = elim (Bool-cases (is_item n k row)) [
  | inl e ↦ rw (e, h row (item_namespace n k row e)) (keep-delete listed n k rows h)
  | inr e ↦
      rw e (ap (λ kept. if listed row then row ∷ kept else kept) (keep-delete listed n k rows h))
]

project-filled : (q : Codes) → codes_eq (trim_codes q) [] ≡ false → codes_eq q [] ≡ false
unfolding trim_codes codes_eq
project-filled [] h = cc h
project-filled (c ∷ q) h = refl

module _ (p q filter : Codes) (t : ItemTable) (memory : List (Codes × StoreRecord))
    (hp : IsProject p) (hq : IsProject q) (h : codes_eq (trim_codes p) (trim_codes q) ≡ false)
    (f : codes_eq (trim_codes filter) [] ≡ false) where
  unlisted : (n : Codes) → Skips (is_listed q (trim_codes filter)) (scoped_namespace p n)
  unfolding is_listed
  unlisted n row e =
      rw (project-filled q hq.named, f, codes_eq→≡ row.namespace (scoped_namespace p n) e)
        (scopes-apart p q n (trim_codes filter) hp hq h)

  abbrev Listing : Items → Type 0
  Listing after =
      list_table q (trim_codes filter) after.table after.memory
      ≡ list_table q (trim_codes filter) (some t) memory

  put_item-Listing :
      (new : StoreRecord)
      → Listing (put_item p new (some t) (record { table = some t; memory = memory })).1
  put_item-Listing new = elim (Bool-cases t.reachable) [
    | inr r ↦ rw r refl
    | inl r ↦
        rw
          (
            r,
            keep-upsert (is_listed q (trim_codes filter))
                (record new { namespace = scoped_namespace p new.namespace }) t.rows
                (unlisted new.namespace),
          )
          refl
  ]

  delete_item-Listing :
      (n k : Codes)
      → Listing (delete_item p n k (some t) (record { table = some t; memory = memory })).1
  delete_item-Listing n k = elim (Bool-cases t.reachable) [
    | inr r ↦ rw r refl
    | inl r ↦ elim (Bool-cases (any (is_item (scoped_namespace p n) k) t.rows)) [
      | inr a ↦ rw (r, a) refl
      | inl a ↦
          rw
            (
              r,
              a,
              keep-delete (is_listed q (trim_codes filter)) (scoped_namespace p n) k t.rows
                  (unlisted n),
            )
            refl
    ]
  ]

-- The items of a project are out of reach of another: over Postgres, what a client of one project
-- puts or deletes leaves two answers to a client of the other as they were, that to getting an item
-- by its namespace and key and that to listing a namespace that is not blank, if the ids of both
-- are not blank, differ by more than the space around them, and have no colon.
pub store_projects_apart :
    (p q : Codes) (new : StoreRecord) (namespace key other_namespace other_key filter : Codes)
    (t : ItemTable) (memory : List (Codes × StoreRecord))
    → IsProject p
    → IsProject q
    → codes_eq (trim_codes p) (trim_codes q) ≡ false
    → codes_eq (trim_codes filter) [] ≡ false
    → let items : Items = record { table = some t; memory = memory } in
      let put = (put_store_item p new items).1 in
      let deleted = (delete_store_item p namespace key items).1 in
      let got = get_store_item q other_namespace other_key in
      (got put ≡ got items)
      × (got deleted ≡ got items)
      × (list_store_items q filter put ≡ list_store_items q filter items)
      × (list_store_items q filter deleted ≡ list_store_items q filter items)
unfolding put_store_item delete_store_item list_store_items
store_projects_apart p q new namespace key other_namespace other_key filter t memory hp hq h f =
    let (put, deleted) =
      store_items_apart p q new namespace key other_namespace other_key t memory hp hq h in
    let trimmed : StoreRecord = record new {
      namespace = trim_codes new.namespace;
      key = trim_codes new.key;
    } in
    (
      put,
      deleted,
      elim (Bool-cases (lacks_name trimmed.namespace trimmed.key)) [
        | inl e ↦ rw e refl
        | inr e ↦ rw e (put_item-Listing p q filter t memory hp hq h f trimmed)
      ],
      elim (Bool-cases (lacks_name (trim_codes namespace) (trim_codes key))) [
        | inl e ↦ rw e refl
        | inr e ↦ rw e (
            delete_item-Listing p q filter t memory hp hq h f (trim_codes namespace)
              (trim_codes key))
      ],
    )
