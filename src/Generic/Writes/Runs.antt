-- ===== src/Generic/Writes/Runs.antt =====
-- What a loop over the documents of a manifest does, for any way to treat one document.
use k8s_mcp.Base.{◌≡◌, refl, sym, ◌∙◌, List, [], ◌∷◌, ◌++◌, length, arith}
use mathlib.Core.List.{append_assoc, append-nil}
use k8s_mcp.Generic.Writes.{
  Doc, Write, WriteError, Action, Entry, Turn, ok, failed, Result, done, error, Outcome, entry_of,
  run_docs,
}

-- How a tool treats one document: the write and the record that it calls for after the writes sent, the
-- errors with which it is given up unwritten, and those with which its write fails.
pub record Treatment (B : Type 0) : Type 1 where
  pub Calls : List (Write B) → Doc B → Write B → Action → Type 0
  pub GivesUp : List (Write B) → Doc B → WriteError → Type 0
  pub Refuses : List (Write B) → Write B → WriteError → Type 0
  pub Grants : List (Write B) → Write B → Type 0

-- A record of a document: its kind and its name.
abbrev pub Names : {B : Type 0} → Doc B → Entry → Type 0
Names doc entry = (entry.kind ≡ doc.kind) × (entry.name ≡ doc.name)

-- Two lists of one length whose members are related in order.
abbrev pub Pairwise : {A B : Type 0} → (A → B → Type 0) → List A → List B → Type 0
Pairwise R [] [] = Unit
Pairwise R (x ∷ xs) (y ∷ ys) = R x y × Pairwise R xs ys
Pairwise R [] (y ∷ ys) = ⊥
Pairwise R (x ∷ xs) [] = ⊥

module _ {B : Type 0} (T : Treatment B) where
  open T use {Calls, GivesUp, Refuses, Grants}

  -- A run over documents, after the writes sent and with what was recorded before: what it writes, and
  -- how it ends.
  pub data Runs
      : List (Write B) → List Entry → List (Doc B) → List (Write B) → Result → Type 0 where
    finished : {sent : List (Write B)} {before : List Entry} → Runs sent before [] [] (done before)
    given_up :
        {sent : List (Write B)} {before : List Entry} {doc : Doc B} {docs : List (Doc B)}
        {e : WriteError}
        → GivesUp sent doc e
        → Runs sent before (doc ∷ docs) [] (error e)
    refused_write :
        {sent : List (Write B)} {before : List Entry} {doc : Doc B} {docs : List (Doc B)}
        {w : Write B} {action : Action} {e : WriteError}
        → Calls sent doc w action
        → Refuses sent w e
        → Runs sent before (doc ∷ docs) (w ∷ []) (error e)
    granted :
        {sent : List (Write B)} {before : List Entry} {doc : Doc B} {docs : List (Doc B)}
        {w : Write B} {ws : List (Write B)} {action : Action} {r : Result}
        → Calls sent doc w action
        → Grants sent w
        → Runs (sent ++ w ∷ []) (before ++ entry_of doc action ∷ []) docs ws r
        → Runs sent before (doc ∷ docs) (w ∷ ws) r

  -- One turn of the loop.
  pub data IsTurn (sent : List (Write B)) (doc : Doc B) : Turn B → Type 0 where
    wrote :
        (w : Write B) (action : Action)
        → Calls sent doc w action
        → Grants sent w
        → IsTurn sent doc (ok (sent ++ w ∷ []) (entry_of doc action))
    gave_up : (e : WriteError) → GivesUp sent doc e → IsTurn sent doc (failed sent e)
    wrote_and_failed :
        (w : Write B) (action : Action) (e : WriteError)
        → Calls sent doc w action
        → Refuses sent w e
        → IsTurn sent doc (failed (sent ++ w ∷ []) e)

  -- A tool that ends well wrote every document, and recorded each by its kind and name, in order.
  abbrev pub IsComplete : List Entry → List (Doc B) → List (Write B) → Result → Type 0
  IsComplete before docs ws (done entries) =
      (length ws ≡ length docs)
      × ((new : List Entry) × (entries ≡ before ++ new) × Pairwise Names docs new)
  IsComplete before docs ws (error e) = Unit {0}

  -- What a loop sent after `sent`, and how it ended.
  pub record Ran (sent : List (Write B)) (before : List Entry) (docs : List (Doc B)) (o : Outcome B)
      : Type 0 where
    pub writes : List (Write B)
    pub sent_is : o.sent ≡ sent ++ writes
    pub runs : Runs sent before docs writes o.result
    pub complete : IsComplete before docs writes o.result

  one_more :
      (before : List Entry) (docs : List (Doc B)) (doc : Doc B) (ws : List (Write B)) (w : Write B)
      (action : Action) (r : Result)
      → IsComplete (before ++ entry_of doc action ∷ []) docs ws r
      → IsComplete before (doc ∷ docs) (w ∷ ws) r
  one_more before docs doc ws w action (done entries) (n, (new, e, p)) = (
    omega (arith, n),
    (
      entry_of doc action ∷ new,
      e ∙ append_assoc before (entry_of doc action ∷ []) new,
      ((refl, refl), p),
    ),
  )
  one_more before docs doc ws w action (error err) c = tt

  module _ (turn : List (Write B) → Doc B → Turn B)
      (fine : (sent : List (Write B)) (doc : Doc B) → IsTurn sent doc (turn sent doc)) where
    pub run_docs-Ran :
        (sent : List (Write B)) (entries : List Entry) (docs : List (Doc B))
        → Ran sent entries docs (run_docs turn sent entries docs)
    unfolding run_docs
    run_docs-Ran sent entries [] = record {
      writes = [];
      sent_is = sym (append-nil sent);
      runs = finished;
      complete = (refl, ([], sym (append-nil entries), tt));
    }
    run_docs-Ran sent entries (doc ∷ docs) =
        after (λ s es. run_docs-Ran s es docs) (turn sent doc) refl (fine sent doc)
      where
        after :
            ((s : List (Write B)) (es : List Entry) → Ran s es docs (run_docs turn s es docs))
            → (t : Turn B) → turn sent doc ≡ t
            → IsTurn sent doc t
            → Ran sent entries (doc ∷ docs) (run_docs turn sent entries (doc ∷ docs))
        after rest t e (wrote w action own granted_it) =
            let r = rest (sent ++ w ∷ []) (entries ++ entry_of doc action ∷ []) in
            rw (run_docs, e)
              (record {
                writes = w ∷ r.writes;
                sent_is = r.sent_is ∙ append_assoc sent (w ∷ []) r.writes;
                runs = granted own granted_it r.runs;
                complete = one_more entries docs doc r.writes w action _ r.complete;
              })
        after rest t e (gave_up err why) =
            rw (run_docs, e)
              (record {
                writes = [];
                sent_is = sym (append-nil sent);
                runs = given_up why;
                complete = tt;
              })
        after rest t e (wrote_and_failed w action err own why) =
            rw (run_docs, e)
              (record {
                writes = w ∷ [];
                sent_is = refl;
                runs = refused_write own why;
                complete = tt;
              })
