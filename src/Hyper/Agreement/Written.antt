-- ===== src/Hyper/Agreement/Written.antt =====
-- What the pet handlers leave in the table: rows that were written for a pet.
use speed_test.Base.{
  String, Option, none, some, Bool, true, false, List, [], ◌∷◌, ℤ, ◌≡◌, refl, ap, Result, ok, err,
  Exec, pure, lift, guard_not, ◌>>=◌, respond, arith, inl, inr, sym, ◌∙◌, Result-cases, Bool-cases,
  int_key, same, map_option, unwrap_or,
}
use speed_test.Models.{Pet, PetStatus, pet_status_to_string}
use speed_test.Serde.{Json, Chrono}
use speed_test.Rows.{pet_values}
use speed_test.Sql.Schema.{
  PetRow, Statement, Answer, Tables, pets_by_status, pets_by_tags, pet_by_id, pet_exists,
  insert_photo, count_by_status, order_by_id, password_of, user_by_username, insert_pet, update_pet,
  delete_pet, update_pet_form, insert_order, delete_order, insert_user, delete_user, update_user,
}
use speed_test.Sql.Table.{upsert, delete, update}
use speed_test.Sql.Meaning.{Dialect, sql, set_form}
use speed_test.Sql.Postgres.{Postgres, execute-cases}
use speed_test.Actix.Response.{HttpResponse, assign_id, next_id, query}

-- The row holds what is written for a pet, so nothing is lost when it is read.
abbrev pub IsWritten : Json → PetRow → Type 0
IsWritten json r =
    (id : ℤ) × (pet : Pet) × (r ≡ pet_values json id pet (json.urls.text pet.photo_urls))

abbrev pub AreWritten : Json → List PetRow → Type 0
AreWritten json [] = Unit {0}
AreWritten json (r ∷ rows) = IsWritten json r × AreWritten json rows

-- What a statement must bind for the rows to stay so.
abbrev pub Binds : {N : Type 0} → Json → Statement N → Type 0
Binds json (insert_pet r) = IsWritten json r
Binds json (update_pet r) = IsWritten json r
Binds json (update_pet_form id name status) =
    (st : Option PetStatus) × (status ≡ map_option pet_status_to_string st)
Binds json _ = Unit {0}

module _ (json : Json) where
  upsert-AreWritten :
      (new : PetRow) (rows : List PetRow)
      → IsWritten json new
      → AreWritten json rows
      → AreWritten json (upsert PetRow.id new rows)
  unfolding upsert
  upsert-AreWritten new [] w h = (w, tt)
  upsert-AreWritten new (r ∷ rows) w h = elim (Bool-cases (same r.id new.id)) [
    | inl e ↦ rw (upsert, e) (w, h.1)
    | inr e ↦ rw (upsert, e) (h.0, upsert-AreWritten new rows w h.1)
  ]

  update-AreWritten :
      (id : ℤ) (f : PetRow → PetRow) (rows : List PetRow)
      → ((r : PetRow) → IsWritten json r → IsWritten json (f r))
      → AreWritten json rows
      → AreWritten json (update PetRow.id id f rows)
  unfolding update
  update-AreWritten id f [] w h = tt
  update-AreWritten id f (r ∷ rows) w h = elim (Bool-cases (same r.id id)) [
    | inl e ↦ rw (update, e) (w r h.0, update-AreWritten id f rows w h.1)
    | inr e ↦ rw (update, e) (h.0, update-AreWritten id f rows w h.1)
  ]

  delete-AreWritten :
      (id : ℤ) (rows : List PetRow)
      → AreWritten json rows
      → AreWritten json (delete PetRow.id id rows)
  unfolding delete
  delete-AreWritten id [] h = tt
  delete-AreWritten id (r ∷ rows) h = elim (Bool-cases (same r.id id)) [
    | inl e ↦ rw (delete, e) (delete-AreWritten id rows h.1)
    | inr e ↦ rw (delete, e) (h.0, delete-AreWritten id rows h.1)
  ]

  set_id-IsWritten : (r old : PetRow) → IsWritten json r → IsWritten json (record r { id = old.id })
  unfolding pet_values
  set_id-IsWritten r old (id, pet, e) =
      (old.id, pet, ap {A = PetRow} {B = PetRow} (λ x. record x { id = old.id }) e ∙ refl)

  set_form-IsWritten :
      (name : Option String) (st : Option PetStatus) (r : PetRow)
      → IsWritten json r
      → IsWritten json (set_form name (map_option pet_status_to_string st) r)
  unfolding pet_values
  set_form-IsWritten name none r (id, pet, e) =
      (id, record pet { name = unwrap_or name pet.name }, ap (set_form name none) e ∙ refl)
  set_form-IsWritten name (some st) r (id, pet, e) = (
    id,
    record pet { name = unwrap_or name pet.name; status = some st },
    ap (set_form name (some (pet_status_to_string st))) e ∙ refl,
  )

  moved : {N : Type 0} (t t' : Tables N) → t ≡ t' → AreWritten json t.pets → AreWritten json t'.pets
  moved t t' p h = rw (← p) h

  sql-AreWritten :
      {N : Type 0} (d : Dialect N) (q : Statement N) (t t' : Tables N) (b : Answer q)
      → sql d q t ≡ some (b, t')
      → Binds json q
      → AreWritten json t.pets
      → AreWritten json t'.pets
  unfolding sql
  sql-AreWritten d (insert_pet r) t t' b e w h =
      moved (record t { pets = upsert PetRow.id r t.pets }) t' (ground arith)
        (upsert-AreWritten r t.pets w h)
  sql-AreWritten d (update_pet r) t t' b e w h =
      moved (record t { pets = update PetRow.id r.id (λ old. record r { id = old.id }) t.pets }) t'
        (ground arith)
        (update-AreWritten r.id (λ old. record r { id = old.id }) t.pets
          (λ old k. set_id-IsWritten r old w) h)
  sql-AreWritten d (delete_pet id) t t' b e w h =
      moved (record t { pets = delete PetRow.id id t.pets }) t' (ground arith)
        (delete-AreWritten id t.pets h)
  sql-AreWritten d (update_pet_form id name status) t t' b e (st, w) h =
      moved (record t { pets = update PetRow.id id (set_form name status) t.pets }) t'
        (ground arith)
        (update-AreWritten id (set_form name status) t.pets
          (λ r k. rw w (set_form-IsWritten name st r k)) h)
  sql-AreWritten d (insert_order r) t t' b e w h =
      let kept : t.pets ≡ t'.pets = ground arith in rw (← kept) h
  sql-AreWritten d (delete_order id) t t' b e w h =
      let kept : t.pets ≡ t'.pets = ground arith in rw (← kept) h
  sql-AreWritten d (insert_user none columns) t t' b e w h = absurd (ground arith)
  sql-AreWritten d (insert_user (some name) columns) t t' b e w h =
      let kept : t.pets ≡ t'.pets = ground arith in rw (← kept) h
  sql-AreWritten d (delete_user name) t t' b e w h =
      let kept : t.pets ≡ t'.pets = ground arith in rw (← kept) h
  sql-AreWritten d (update_user name columns) t t' b e w h =
      let kept : t.pets ≡ t'.pets = ground arith in rw (← kept) h
  sql-AreWritten d (pets_by_status label) t t' b e w h =
      let kept : t.pets ≡ t'.pets = ground arith in rw (← kept) h
  sql-AreWritten d (pets_by_tags names) t t' b e w h =
      let kept : t.pets ≡ t'.pets = ground arith in rw (← kept) h
  sql-AreWritten d (pet_by_id id) t t' b e w h =
      let kept : t.pets ≡ t'.pets = ground arith in rw (← kept) h
  sql-AreWritten d (pet_exists id) t t' b e w h =
      let kept : t.pets ≡ t'.pets = ground arith in rw (← kept) h
  sql-AreWritten d (insert_photo r) t t' b e w h =
      let kept : t.pets ≡ t'.pets = ground arith in rw (← kept) h
  sql-AreWritten d (count_by_status) t t' b e w h =
      let kept : t.pets ≡ t'.pets = ground arith in rw (← kept) h
  sql-AreWritten d (order_by_id id) t t' b e w h =
      let kept : t.pets ≡ t'.pets = ground arith in rw (← kept) h
  sql-AreWritten d (password_of name) t t' b e w h =
      let kept : t.pets ≡ t'.pets = ground arith in rw (← kept) h
  sql-AreWritten d (user_by_username name) t t' b e w h =
      let kept : t.pets ≡ t'.pets = ground arith in rw (← kept) h

module _ (json : Json) (c : Chrono) (pg : Postgres c.NaiveDateTime) where
  open pg use {State, tables}

  -- A step after which the rows of the pets are written for pets as before.
  unfoldable pub Keeps : {E A : Type 0} → Exec State E A → Type 0
  Keeps m = (s : State) → AreWritten json (tables s).pets → AreWritten json (tables (m s).1).pets

  pub query-Keeps :
      (D : Type 0) (message : String) (q : Statement c.NaiveDateTime)
      → Binds json q
      → Keeps (query pg {D = D} message q)
  unfolding Keeps
  query-Keeps D message q w s h = elim (execute-cases pg q s) [
    | inl (a, e, b, meant, answer) ↦
        sql-AreWritten json pg.dialect q (tables s) (tables (pg.execute q s).1) b meant w h
    | inr (m, e, kept) ↦ moved json (tables s) (tables (pg.execute q s).1) (sym kept) h
  ]

  pub assign_id-Keeps :
      (D : Type 0) (o : Option ℤ) (sequence : String) → Keeps (assign_id pg {D = D} o sequence)
  unfolding Keeps assign_id next_id
  assign_id-Keeps D (some id) sequence s h = h
  assign_id-Keeps D none sequence s h =
      let kept : (assign_id pg {D = D} none sequence s).1 ≡ (pg.nextval sequence s).1 =
        ground arith in
      rw kept (
        moved json (tables s) (tables (pg.nextval sequence s).1)
          (sym (pg.tables-nextval sequence s)) h)

  pub bind-Keeps :
      {E A B : Type 0} (m : Exec State E A) (f : A → Exec State E B)
      → Keeps m
      → ((a : A) → Keeps (f a))
      → Keeps (m >>= f)
  unfolding Keeps
  bind-Keeps m f hm hf s h = elim (Result-cases (m s).0) [
    | inl (a, e) ↦
        let step : (m >>= f) s ≡ f a (m s).1 = ground arith in rw step (hf a (m s).1 (hm s h))
    | inr (x, e) ↦ let step : (m >>= f) s ≡ (err x, (m s).1) = ground arith in rw step (hm s h)
  ]

  pub respond-Keeps :
      {R : Type 0} (m : Exec State R R) (s : State)
      → Keeps m
      → AreWritten json (tables s).pets
      → AreWritten json (tables (respond m s).1).pets
  unfolding Keeps
  respond-Keeps m s hm h = elim (Result-cases (m s).0) [
    | inl (a, e) ↦ let step : respond m s ≡ (a, (m s).1) = ground arith in rw step (hm s h)
    | inr (a, e) ↦ let step : respond m s ≡ (a, (m s).1) = ground arith in rw step (hm s h)
  ]

  pub pure-Keeps : (E : Type 0) {A : Type 0} (a : A) → Keeps (pure {S = State} {E = E} a)
  unfolding Keeps
  pure-Keeps E a s h = h

  pub lift-Keeps : {E A : Type 0} (r : Result E A) → Keeps (lift {S = State} r)
  unfolding Keeps
  lift-Keeps r s h = h

  pub guard_not-Keeps : {E : Type 0} (b : Bool) (e : E) → Keeps (guard_not {S = State} b e)
  unfolding Keeps
  guard_not-Keeps true e s h = h
  guard_not-Keeps false e s h = h

  -- A body that sends one statement, and one that first takes an id.
  pub query-bind-Keeps :
      {D A : Type 0} (message : String) (q : Statement c.NaiveDateTime)
      (f : Answer q → Exec State (HttpResponse D) A)
      → Binds json q
      → ((a : Answer q) → Keeps (f a))
      → Keeps (query pg message q >>= f)
  query-bind-Keeps {D} message q f w hf =
      bind-Keeps (query pg message q) f (query-Keeps D message q w) hf

  -- A value that was computed before.
  pub lift-bind-Keeps :
      {E A B : Type 0} (r : Result E A) (f : A → Exec State E B)
      → ((a : A) → r ≡ ok a → Keeps (f a))
      → Keeps (lift r >>= f)
  unfolding Keeps
  lift-bind-Keeps (ok a) f hf = hf a refl
  lift-bind-Keeps (err e) f hf = λ s h. h
