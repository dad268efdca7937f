-- ===== src/Composition/Histories.antt =====
-- Sequences of requests for products, answered one after the other.
use recipes_core.Prelude.{subst, sym, ◌≡◌, some, List, [], ◌∷◌}
use recipes_core.App.{DatabaseExecutor}
use recipes_core.Api.{Glaze}
use recipes_core.Http.{Request, Response}
use recipes_core.Router.Dispatch.Routes.{route_of}
use recipes_core.Router.Dispatch.Table.{handle_async-table}
use recipes_core.Sql.{Engine}
use recipes_core.Db.Connection.{Database}
use recipes_core.Repository.{sqlite_repository}
use recipes_core.Repository.Catalogue.{Call, Reply, Step, finished, next, catalogue, call}
use recipes_core.Repository.Catalogue.Settled.{IsSettled, IsReliable}
use recipes_core.Repository.Catalogue.Refines.{IsReadableCall, call-Serves}
use recipes_core.Composition.{
  IsPrompt, Asks, posts, gets, puts, deletes, Renders, AllAsk, IsHistory, handled, handled_all,
}
use recipes_core.Composition.Requests.{parsed-IsReadable, entry, asked-Fulfils}

Asks-IsReadableCall :
    (glaze : Glaze) (request : Request) (c : Call) → Asks glaze request c → IsReadableCall c
Asks-IsReadableCall glaze request _ (posts p route method json body range) =
    parsed-IsReadable glaze request.body p body range
Asks-IsReadableCall glaze request _ (gets id route method) = tt
Asks-IsReadableCall glaze request _ (puts id p route method json body range) =
    parsed-IsReadable glaze request.body p body range
Asks-IsReadableCall glaze request _ (deletes id route method) = tt

module _ (glaze : Glaze) (engine : Engine) (reliable : IsReliable engine) {W : Type 0}
    (executor : DatabaseExecutor Database W) (storage : W → Database) (Serving : W → Type 0)
    (prompt : IsPrompt executor storage Serving) where
  first_then :
      (request : Request) (requests : List Request) (c : Call) (cs : List Call) (w between : W)
      (reply : Reply) (response : Response)
      → handled glaze engine executor request w ≡ (some response, between)
      → Step (catalogue (storage w)) c reply (catalogue (storage between))
      → Renders glaze request c reply response
      → (let later = handled_all glaze engine executor requests between in
          IsHistory glaze requests cs
            (catalogue (storage between))
            later.0
            (catalogue (storage later.1)))
      → let all = handled_all glaze engine executor (request ∷ requests) w in
        IsHistory glaze
          (request ∷ requests)
          (c ∷ cs)
          (catalogue (storage w))
          all.0
          (catalogue (storage all.1))
  unfolding handled_all
  first_then request requests c cs w between reply response e step shown rest =
      let later = handled_all glaze engine executor requests between in
      rw e (
        reply ∷ rest.0,
        next (catalogue (storage w)) (catalogue (storage between)) (catalogue (storage later.1)) c
            reply cs rest.0 step rest.1,
        (shown, rest.2),
      )

  -- Requests for products, each answered before the next, are a history of the catalogue: every
  -- request gets a response, which shows the reply of the catalogue's step for it: 201 with the
  -- JSON of the new product and its id, 200 with that of the product as it was last given, 500 in
  -- place of either where Glaze does not write the product, 204, or the status of the error. A PUT
  -- answers with the product as given. The requests name the collection or an id, with a method
  -- that it has, and a write has a JSON body that is a product with an int, as its type says, for
  -- the amount; the executor serves each operation at once; the connection is settled, as a new one
  -- is; and the engine has no faults, draws ids beyond its counter and repeats the error of a
  -- failed step at `reset`.
  pub handled_all-IsHistory :
      (requests : List Request) (cs : List Call) (w : W)
      → AllAsk glaze requests cs
      → IsSettled (storage w)
      → Serving w
      → let all = handled_all glaze engine executor requests w in
        IsHistory glaze requests cs (catalogue (storage w)) all.0 (catalogue (storage all.1))
  unfolding handled_all handled
  handled_all-IsHistory [] [] w asks h on = ([], finished (catalogue (storage w)), tt)
  handled_all-IsHistory [] (c ∷ cs) w asks h on = absurd asks
  handled_all-IsHistory (request ∷ requests) [] w asks h on = absurd asks
  handled_all-IsHistory (request ∷ requests) (c ∷ cs) w asks h on =
      let told =
        entry glaze engine reliable request executor storage Serving prompt
          (route_of request.target) request.method w in
      let replied = call engine c (storage w) in
      let fulfils =
        asked-Fulfils glaze engine reliable request executor storage Serving prompt c w asks.0 h
          on in
      let served =
        call-Serves engine reliable c (storage w) (Asks-IsReadableCall glaze request c asks.0) h in
      let step =
        subst (λ d. Step (catalogue (storage w)) c replied.0 (catalogue d)) (sym fulfils.0)
          served.0 in
      first_then request requests c cs w told.1 replied.0 told.0
        (handle_async-table glaze (sqlite_repository engine) executor request w) step fulfils.2
        (handled_all-IsHistory requests cs told.1 asks.1 (subst IsSettled (sym fulfils.0) served.1)
          fulfils.1)
