-- ===== src/Composition/Requests.antt =====
-- One request for a product: the handlers of src/server/Router.cpp against the catalogue.
use recipes_core.Repository.Catalogue.Deleting.{reading}
use recipes_core.Repository.Catalogue.Updating.{update-Serves}
use recipes_core.Prelude.{
  inl, inr, IsInt, ◌∙◌, subst, ℕ, Text, text, ◌≡◌, refl, sym, ap, Option, some, none,
}
use recipes_core.Kitchen.{Product, SysDays}
use recipes_core.Repository.Creation.{IsStorableDate}
use recipes_core.Router.Bodies.Laws.{parsed-Describes}
use recipes_core.App.{Action, DatabaseExecutor, Error, Expected, expected, unexpected}
use recipes_core.Service
use recipes_core.Api.{Glaze, Result, value, error, serialize_product}
use recipes_core.Http
use recipes_core.Http.{Verb, Status, Request, Response, get, post, put, delete_}
use recipes_core.Router.Responses.{
  to_product_response, error_status, make_app_error_response, make_error_response,
  make_json_response,
}
use recipes_core.Router.Bodies.{parsed, parse_product}
use recipes_core.Router.Handlers.{
  on_json_body, on_parsed, on_result, found_or, no_content_reply, serialized,
}
use recipes_core.Router.Products
use recipes_core.Router.Dispatch.Routes.{Route, products, route_of}
use recipes_core.Router.Dispatch.Table.{table}
use recipes_core.Sql.{Engine}
use recipes_core.Db.Connection.{Database}
use recipes_core.Repository.{sqlite_repository}
use recipes_core.Repository.Catalogue.{
  Catalogue, Call, create, read, update, delete, Reply, product, done, Step, updated, catalogue,
  answer, call,
}
use recipes_core.Repository.Catalogue.Settled.{IsReadable, IsSettled, IsReliable, Serves}
use recipes_core.Composition.{
  IsPrompt, Asks, posts, gets, puts, deletes, product_reply, Shows, Renders,
}

error_status-shown :
    (glaze : Glaze) (request : Request) (e : Error)
    → (make_app_error_response glaze e request.version request.keep_alive).status
      ≡ (error_status e.code).0
unfolding make_app_error_response make_error_response make_json_response
error_status-shown glaze request e = refl

product_reply-Shows :
    (glaze : Glaze) (request : Request) (status : Status) (p : Product)
    → Shows glaze request status p (product_reply glaze request status p)
unfolding serialized make_error_response make_json_response
product_reply-Shows glaze request status p =
    by_result (serialize_product glaze (to_product_response p)) refl
  where
    by_result :
        (r : Result Text)
        → serialize_product glaze (to_product_response p) ≡ r
        → Shows glaze request status p
            (serialized glaze request status (text "Failed to serialize product") r)
    by_result (value body) e = inl (body, e, refl)
    by_result (error message) e = inr (message, e, refl)

module _ (glaze : Glaze) (request : Request) {W : Type 0} (storage : W → Database)
    (Serving : W → Type 0) where
  -- The response shows the reply, the storage is as the call leaves it, and the executor goes on.
  abbrev pub Fulfils : Call → Reply × Database → Response × W → Type 0
  Fulfils c r h = (storage h.1 ≡ r.1) × Serving h.1 × Renders glaze request c r.0 h.0

  -- What the executor delivers for an operation with an outcome.
  abbrev pub Delivers : {A : Type 0} → Expected A × Database → Expected A × W → Type 0
  Delivers r d = (d.0 ≡ r.0) × (storage d.1 ≡ r.1) × Serving d.1

  pub read-Fulfils :
      (id : ℕ) (r : Expected (Option Product) × Database) (d : Expected (Option Product) × W)
      → Delivers r d
      → Fulfils (read id) (answer product r) (
          on_result glaze request d (λ found w. (
            found_or glaze request
                (text "Product was not found")
                (product_reply glaze request Http.ok)
                found,
            w,
          )))
  unfolding on_result found_or make_error_response make_json_response
  read-Fulfils id (unexpected e, db) (x, w) h =
      rw h.0 (h.1, h.2, error_status-shown glaze request e)
  read-Fulfils id (expected none, db) (x, w) h = rw h.0 (h.1, h.2, refl)
  read-Fulfils id (expected (some p), db) (x, w) h =
      rw h.0 (h.1, h.2, product_reply-Shows glaze request Http.ok p)

  create-Fulfils :
      (p : Product) (r : Expected Product × Database) (d : Expected Product × W)
      → Delivers r d
      → Fulfils (create p) (answer (λ q. product (some q)) r) (
          on_result glaze request d
            (λ created w. (product_reply glaze request Http.created created, w)))
  unfolding on_result
  create-Fulfils p (unexpected e, db) (x, w) h =
      rw h.0 (h.1, h.2, error_status-shown glaze request e)
  create-Fulfils p (expected q, db) (x, w) h =
      rw h.0 (h.1, h.2, product_reply-Shows glaze request Http.created q)

  delete-Fulfils :
      (id : ℕ) (r : Expected (Unit {0}) × Database) (d : Expected (Unit {0}) × W)
      → Delivers r d
      → Fulfils
          (delete id)
          (answer (λ _. done) r)
          (on_result glaze request d (λ _ w. (no_content_reply request, w)))
  unfolding on_result
  delete-Fulfils id (unexpected e, db) (x, w) h =
      rw h.0 (h.1, h.2, error_status-shown glaze request e)
  delete-Fulfils id (expected _, db) (x, w) h = rw h.0 (h.1, h.2, refl)

  -- The product that is read after an update.
  abbrev pub ReadsBack : ℕ → Product → Database → Response × W → Type 0
  ReadsBack id p after h =
      (storage h.1 ≡ after)
      × Serving h.1
      × Shows glaze request Http.ok (record p { id = some id }) h.0

  update-Fulfils :
      (id : ℕ) (p : Product) (read_back : W → Response × W) (r : Expected (Unit {0}) × Database)
      (d : Expected (Unit {0}) × W)
      → Delivers r d
      → ((w : W)
          → r ≡ (expected tt, storage w)
          → Serving w
          → ReadsBack id p (storage w) (read_back w))
      → Fulfils
          (update id p)
          (answer (λ _. done) r)
          (on_result glaze request d (λ _ w. read_back w))
  unfolding on_result
  update-Fulfils id p read_back (unexpected e, db) (x, w) h back =
      rw h.0 (h.1, h.2, error_status-shown glaze request e)
  update-Fulfils id p read_back (expected u, db) (x, w) h back =
      let read = back w (ap (λ s. (expected tt, s)) (sym h.1)) h.2 in
      rw h.0 (read.0 ∙ h.1, read.1, read.2)

-- After an update, the product is found as it was given.
updated_find :
    (before after : Catalogue) (id : ℕ) (p : Product)
    → Step before (update id p) done after
    → after.find id ≡ some (record p { id = some id })
updated_find before _ _ _ (updated id p old after ok ready here free sets) = sets.at_id

pub parsed-IsReadable :
    (glaze : Glaze) (body : Text) (p : Product)
    → parse_product glaze body ≡ parsed p
    → IsInt p.amount
    → IsReadable p
parsed-IsReadable glaze body p e range =
    let described = (parsed-Describes glaze body p e).1 in
    let no_date : (o : Option SysDays) → none ≡ o → IsStorableDate o =
      λ o same. subst IsStorableDate same tt in
    record {
      range = range;
      dimension = described.named;
      manufacture = no_date p.dates.manufacture (ap (λ d. d.manufacture) (sym described.dates));
      expiration = no_date p.dates.expiration (ap (λ d. d.expiration) (sym described.dates));
    }

module _ (glaze : Glaze) (engine : Engine) (reliable : IsReliable engine) (request : Request)
    {W : Type 0} (executor : DatabaseExecutor Database W) (storage : W → Database)
    (Serving : W → Type 0) (prompt : IsPrompt executor storage Serving) where
  delivers :
      {A : Type 0} (operation : Action Database A) (w : W)
      → Serving w
      → Delivers glaze request storage Serving
          (operation (storage w))
          (executor.async_submit A operation w)
  delivers operation w h =
      (prompt.result operation w h, prompt.stored operation w h, prompt.serving operation w h)

  read_back :
      (id : ℕ) (p : Product) (db : Database) (w : W)
      → IsReadable p
      → IsSettled db
      → Service.update_product (sqlite_repository engine) id p db ≡ (expected tt, storage w)
      → Serving w
      → ReadsBack glaze request storage Serving id p
          (storage w)
          (Products.get_product glaze (sqlite_repository engine) executor request id w)
  unfolding Products.get_product call
  read_back id p db w readable h e on =
      let after = storage w in
      let served : Serves engine db (update id p) (done, after) =
        subst (Serves engine db (update id p)) (ap (answer (λ _. done)) e)
          (update-Serves engine reliable id p db readable h) in
      let here = updated_find (catalogue db) (catalogue after) id p served.0 in
      let found : Service.get_product (sqlite_repository engine) id after
          ≡ (expected (some (record p { id = some id })), after) =
        reading engine reliable id after served.1 ∙ ap (λ o. (expected o, after)) here in
      let given =
        executor.async_submit (Option Product) (Service.get_product (sqlite_repository engine) id)
          w in
      read-Fulfils glaze request storage Serving id
        (expected (some (record p { id = some id })), after) given
        (subst (λ r. Delivers glaze request storage Serving r given) found
          (delivers (Service.get_product (sqlite_repository engine) id) w on))

  abbrev pub entry : Route → Verb → W → Response × W
  entry route verb w = table glaze (sqlite_repository engine) executor route verb request w

  abbrev Fulfilled : Call → W → Response × W → Type 0
  Fulfilled c w h = Fulfils glaze request storage Serving c (call engine c (storage w)) h

  at_entry :
      (c : Call) (w : W) (route : Route) (verb : Verb)
      → route_of request.target ≡ route
      → request.method ≡ verb
      → Fulfilled c w (entry route verb w)
      → Fulfilled c w (entry (route_of request.target) request.method w)
  at_entry c w route verb r m h =
      subst (λ x. Fulfilled c w (entry x request.method w)) (sym r)
        (subst (λ v. Fulfilled c w (entry route v w)) (sym m) h)

  -- The table's entry for a request that asks for a call.
  pub asked-Fulfils :
      (c : Call) (w : W)
      → Asks glaze request c
      → IsSettled (storage w)
      → Serving w
      → Fulfilled c w (entry (route_of request.target) request.method w)
  unfolding Products.get_product Products.create_product Products.update_product
      Products.delete_product call on_json_body on_parsed
  asked-Fulfils _ w (posts p route method json body range) h on =
      at_entry (create p) w products post route method (
        rw (json, body)
          (create-Fulfils glaze request storage Serving p _ _
            (delivers (Service.create_product (sqlite_repository engine) p) w on)))
  asked-Fulfils _ w (gets id route method) h on =
      at_entry (read id) w (Route.product id) get route method (
        read-Fulfils glaze request storage Serving id _ _
          (delivers (Service.get_product (sqlite_repository engine) id) w on))
  asked-Fulfils _ w (puts id p route method json body range) h on =
      at_entry (update id p) w (Route.product id) put route method (
        rw (json, body)
          (update-Fulfils glaze request storage Serving id p
            (Products.get_product glaze (sqlite_repository engine) executor request id) _ _
            (delivers (Service.update_product (sqlite_repository engine) id p) w on)
            (λ v.
              read_back id p (storage w) v (parsed-IsReadable glaze request.body p body range) h)))
  asked-Fulfils _ w (deletes id route method) h on =
      at_entry (delete id) w (Route.product id) delete_ route method (
        delete-Fulfils glaze request storage Serving id _ _
          (delivers (Service.delete_product (sqlite_repository engine) id) w on))
