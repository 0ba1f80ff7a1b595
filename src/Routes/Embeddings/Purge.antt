-- ===== src/Routes/Embeddings/Purge.antt =====
-- A synchronisation as Lychee runs it through the endpoints: a `DELETE /embeddings/sync` for each batch, and
-- then `DELETE /embeddings/purge`. It stops at the first answer that is no success.
use lychee_facial_recognitio.Prelude.{
  ℕ, ◌+◌, ◌<◌, ◌≡◌, refl, String, str_eq, Bool, true, false, not, List, [], ◌∷◌, length, filter,
  arith, Bool-cases, inl, inr, subst, sym,
}
use lychee_facial_recognitio.Prelude.Int.{pos}
use lychee_facial_recognitio.Settings.{AppSettings}
use lychee_facial_recognitio.Sql.{Result, Session}
use lychee_facial_recognitio.FaceStore.{is_listed}
use lychee_facial_recognitio.FaceStore.Rows.{concat, flag_all}
use lychee_facial_recognitio.FaceStore.SyncSession.{
  SyncStore, Survives, sync_from, sync_session, session-Survives,
}
use lychee_facial_recognitio.Routes.{Answer, ok, http_exception, server_error}
use lychee_facial_recognitio.Routes.Embeddings.{
  Handler, answered, sync_embeddings, purge_embeddings,
}

-- The next request is sent if the last one was a success.
abbrev and_then : {T A B : Type 0} → Answer A × Session T → Handler T B → Answer B × Session T
and_then (ok a, s) next = next s
and_then (http_exception status, s) next = (http_exception status, s)
and_then (server_error, s) next = (server_error, s)

module _ {V F G : Type 0} (store : SyncStore V F) (settings : AppSettings G)
    (x_api_key : String) where
  open store use {Tables, rows, Ready, sync_batch, purge_absent}

  abbrev pub send_batches : ℕ → List (List String) → Handler Tables (Unit {0})
  send_batches batch [] s = (ok tt, s)
  send_batches batch (ids ∷ rest) s =
      and_then (sync_embeddings settings sync_batch x_api_key ids (pos batch) s)
        (send_batches (batch + 1) rest)

  abbrev pub synchronise : List (List String) → Handler Tables ℕ
  synchronise batches s =
      and_then (send_batches 0 batches s) (purge_embeddings settings purge_absent x_api_key)

  -- How a synchronisation ends for the ids of its batches.
  abbrev pub Purges : List String → Session Tables → Answer ℕ × Session Tables → Type 0
  Purges ids s (ok deleted, s') =
      (rows s'.committed ≡ flag_all (filter (is_listed ids) (rows s.committed)))
      × (deleted ≡ length (filter (λ r. not (is_listed ids r)) (rows s.committed)))
  Purges ids s (http_exception status, s') = ⊥
  Purges ids s (server_error, s') = s.faults < s'.faults

  -- With the key the requests run the batches of the store.
  send_batches-sync_from :
      str_eq x_api_key settings.api_key ≡ true
      → (batch : ℕ) (batches : List (List String)) (s : Session Tables)
      → send_batches batch batches s ≡ answered (sync_from store batch batches) s
  unfolding sync_embeddings
  send_batches-sync_from key batch [] s = refl
  send_batches-sync_from key batch (ids ∷ rest) s =
      let s' = (sync_batch ids batch s).1 in
      ground (arith, key, send_batches-sync_from key (batch + 1) rest s')

  synchronise-sync_session :
      str_eq x_api_key settings.api_key ≡ true
      → (batches : List (List String)) (s : Session Tables)
      → synchronise batches s ≡ answered (sync_session store batches) s
  unfolding purge_embeddings sync_session
  synchronise-sync_session key batches s =
      ground (arith, key, send_batches-sync_from key 0 batches s)

  Survives-Purges :
      (ids : List String) (s : Session Tables) (end : Result ℕ × Session Tables)
      → Survives store ids s end
      → Purges ids s (answered (λ _. end) s)
  Survives-Purges ids s (Result.ok deleted, s') h = (h.0, h.1)
  Survives-Purges ids s (Result.err e, s') h = h

  -- With the configured key the synchronisation ends as `Purges` says, with any other it is refused.
  abbrev pub Ends : Bool → List String → Session Tables → Answer ℕ × Session Tables → Type 0
  Ends true ids s end = Purges ids s end
  Ends false ids s end = end ≡ (http_exception 401, s)

  refused :
      str_eq x_api_key settings.api_key ≡ false
      → (first : List String) (rest : List (List String)) (s : Session Tables)
      → synchronise (first ∷ rest) s ≡ (http_exception 401, s)
  unfolding sync_embeddings
  refused key first rest s = ground (arith, key)

  -- Whatever key the requests carry: with another key than the configured one the first is answered with
  -- 401 and the store stays as it is; with the configured key, on a store that is ready, a synchronisation
  -- that ends with a success leaves exactly the faces that some batch listed, flagged present, and its
  -- answer is the number of those that were purged; it ends otherwise only with 500, when some
  -- statement has failed.
  pub synchronise-Ends :
      (first : List String) (rest : List (List String)) (s : Session Tables)
      → Ready s
      → Ends
          (str_eq x_api_key settings.api_key)
          (concat (first ∷ rest))
          s
          (synchronise (first ∷ rest) s)
  synchronise-Ends first rest s ready =
      let ids = concat (first ∷ rest) in
      let end = synchronise (first ∷ rest) s in
      elim (Bool-cases (str_eq x_api_key settings.api_key)) [
        | inl key ↦
            subst (λ same. Ends same ids s end) (sym key)
              (subst (Purges ids s) (sym (synchronise-sync_session key (first ∷ rest) s)) (
                Survives-Purges ids s (sync_session store (first ∷ rest) s)
                  (session-Survives store first rest s ready)))
        | inr wrong ↦ subst (λ same. Ends same ids s end) (sym wrong) (refused wrong first rest s)
      ]
