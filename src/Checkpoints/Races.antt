-- ===== src/Checkpoints/Races.antt =====
-- Executors that race to write the checkpoint of a Run, in
-- packages/persistence/src/chaosagent_persistence/repository.py.
use chaosagent.Base.{
  ℕ, ◌+◌, ◌≤◌, ◌<◌, ◌⊎◌, ◌≡◌, refl, sym, ap, subst, ◌∙◌, String, some, ◌==◌, nat_eq, string_eq,
  ==→≡, ==-refl, ok, err, Bool-cases, Result-cases, inl, inr, arith,
}
use chaosagent.Store.Tables.{Error, LeaseIdentity, Db}
use chaosagent.Json.{Members}
use chaosagent.Faults.{Hashing}
use chaosagent.Leases.{Clock}
use chaosagent.Checkpoints.{
  Checkpoint, Store, digest_payload, find_checkpoint, checkpoint_record, get_execution_checkpoint,
  store_execution_checkpoint,
}
use chaosagent.Checkpoints.Swap.{version_of, version, Swapped, store_execution_checkpoint-Swapped}

-- A returning write of a checkpoint, or any change that other methods make to the other tables.
pub data Step (h : Hashing) : Store → Store → Type 0 where
  stores :
      (clock : Clock) (now : ℕ) (lease : LeaseIdentity) (document : Members) (expected_version : ℕ)
      (store : Store) (c : Checkpoint) (store' : Store)
      → store_execution_checkpoint h clock now lease document expected_version store
        ≡ ok (c, store')
      → Step h store store'
  elsewhere : (store : Store) (db : Db) → Step h store (record store { db = db })

pub data Steps (h : Hashing) : Store → Store → Type 0 where
  stop : (s : Store) → Steps h s s
  next : (s t u : Store) → Step h s t → Steps h t u → Steps h s u

-- A readable checkpoint of a Run: a written one, or one of a version past that.
pub record Kept (h : Hashing) (id : String) (written : Checkpoint) (store : Store) : Type 0 where
  pub checkpoint : Checkpoint
  pub found : find_checkpoint id store.checkpoints ≡ some checkpoint
  pub reached :
      (checkpoint ≡ written) ⊎ (written.checkpoint_version < checkpoint.checkpoint_version)
  pub digested : digest_payload h checkpoint.document ≡ ok checkpoint.document_digest

module _ (h : Hashing) (id : String) (n : Checkpoint) where
  Swapped-Kept :
      (lease : LeaseIdentity) (document : Members) (v : ℕ) (s : Store) (c : Checkpoint) (t : Store)
      → Swapped h lease document v s c t
      → Kept h id n s
      → Kept h id n t
  unfolding version
  Swapped-Kept lease document v s c t w k = elim (Bool-cases (lease.run_id == id)) [
    | inr other ↦ record {
      checkpoint = k.checkpoint;
      found = w.others id other ∙ k.found;
      reached = k.reached;
      digested = k.digested;
    }
    | inl same ↦
        let is_id = ==→≡ lease.run_id id same in
        let expected : k.checkpoint.checkpoint_version ≡ v =
          sym (ap version_of k.found)
          ∙ ap (λ i. version_of (find_checkpoint i s.checkpoints)) (sym is_id)
          ∙ w.expected in
        let next_version = w.next in
        record {
          checkpoint = c;
          found = subst (λ i. find_checkpoint i t.checkpoints ≡ some c) is_id w.found;
          reached = inr (elim k.reached [
            | inl written ↦
                let same = ap (λ (x : Checkpoint). x.checkpoint_version) written in omega arith
            | inr past ↦ omega arith
          ]);
          digested = w.digested;
        }
  ]

  Step-Kept : (s t : Store) → Step h s t → Kept h id n s → Kept h id n t
  Step-Kept s t (stores clock now lease document v _ c _ eq) k =
      Swapped-Kept lease document v s c t
        (store_execution_checkpoint-Swapped h clock now lease document v s c t eq) k
  Step-Kept s t (elsewhere _ db) k = record {
    checkpoint = k.checkpoint;
    found = k.found;
    reached = k.reached;
    digested = k.digested;
  }

  Steps-Kept : (s u : Store) → Steps h s u → Kept h id n s → Kept h id n u
  Steps-Kept s u (stop _) k = k
  Steps-Kept s u (next _ t _ step steps) k = Steps-Kept t u steps (Step-Kept s t step k)

module _ (h : Hashing) (clock : Clock) (now : ℕ) (lease : LeaseIdentity) (document : Members)
    (v : ℕ) (s : Store) (c : Checkpoint) (t u : Store)
    (stored : store_execution_checkpoint h clock now lease document v s ≡ ok (c, t))
    (later : Steps h t u) where
  kept : Kept h lease.run_id c u
  kept =
      let w = store_execution_checkpoint-Swapped h clock now lease document v s c t stored in
      Steps-Kept h lease.run_id c t u later
        (record { checkpoint = c; found = w.found; reached = inl refl; digested = w.digested })

  kept_version : v + 1 ≤ kept.checkpoint.checkpoint_version
  kept_version =
      let w = store_execution_checkpoint-Swapped h clock now lease document v s c t stored in
      let next_version = w.next in
      elim kept.reached [
        | inl written ↦
            let same = ap (λ (x : Checkpoint). x.checkpoint_version) written in omega arith
        | inr past ↦ omega arith
      ]

  -- After a write of a checkpoint has returned and any steps have followed, by any executors, the checkpoint
  -- of the Run can be read: it is the very checkpoint that was written, or one of a later version. The written
  -- one has the document and the next version.
  pub stored_stays :
      (d : Checkpoint) × (get_execution_checkpoint h lease.run_id u ≡ ok (some d))
      × ((d ≡ c) ⊎ (v + 1 < d.checkpoint_version))
      × (c.document ≡ document)
      × (c.checkpoint_version ≡ v + 1)
  unfolding get_execution_checkpoint checkpoint_record
  stored_stays =
      let w = store_execution_checkpoint-Swapped h clock now lease document v s c t stored in
      (
        kept.checkpoint,
        rw (w.identified, kept.found, kept.digested, ==-refl kept.checkpoint.document_digest) refl,
        subst (λ n. (kept.checkpoint ≡ c) ⊎ (n < kept.checkpoint.checkpoint_version)) w.next
            kept.reached,
        w.same_document,
        w.next,
      )

  -- After that, no executor writes a checkpoint of the Run that expects the same or an earlier version.
  pub stale_writer_raises :
      (clock' : Clock) (now' : ℕ) (lease' : LeaseIdentity) (document' : Members) (v' : ℕ)
      → lease'.run_id ≡ lease.run_id
      → v' ≤ v
      → (e : Error) × (store_execution_checkpoint h clock' now' lease' document' v' u ≡ err e)
  unfolding version
  stale_writer_raises clock' now' lease' document' v' same_run stale =
      elim (Result-cases (store_execution_checkpoint h clock' now' lease' document' v' u)) [
        | inr raised ↦ raised
        | inl ((d, t'), wrote) ↦
            let w =
              store_execution_checkpoint-Swapped h clock' now' lease' document' v' u d t' wrote in
            let reached = kept_version in
            let expected : kept.checkpoint.checkpoint_version ≡ v' =
              sym (ap version_of kept.found)
              ∙ ap (λ i. version_of (find_checkpoint i u.checkpoints)) (sym same_run)
              ∙ w.expected in
            absurd (omega arith)
      ]
