-- ===== src/Consensus/ChangeLog/Chain.antt =====
-- The linked list of the change log is the list of its entries (modules/consensus/changelog.go).
use hyperspace.Common.{
  ℕ, ◌≡◌, ◌≢◌, refl, sym, ap, ◌∙◌, subst, List, [], ◌∷◌, ◌++◌, Option, none, some, ok, arith,
}
use hyperspace.Database.{Bolt}
use hyperspace.Consensus.State.{Env}
use hyperspace.Consensus.ChangeLog.{
  ChangeEntry, ChangeNode, ChangeLog, entry_id, node, point_tail, append_change_log, get_entry,
  next_entry,
}

module _ (db : Bolt) (e : Env) where
  open db use {get, put}

  -- From an entry to the tail, each entry under its id, and pointing to the next.
  pub data IsChain (nodes : db.Bucket ChangeNode) (tail : ℕ) : List ChangeEntry → Type 0 where
    last :
        (ce : ChangeEntry)
        → entry_id db e ce ≡ tail
        → get nodes (entry_id db e ce) ≡ some (node db e ce 0)
        → IsChain nodes tail (ce ∷ [])
    more :
        (ce next : ChangeEntry) (rest : List ChangeEntry)
        → entry_id db e next ≢ 0
        → get nodes (entry_id db e ce) ≡ some (node db e ce (entry_id db e next))
        → IsChain nodes tail (next ∷ rest)
        → IsChain nodes tail (ce ∷ next ∷ rest)

  -- The log holds the entries, the oldest first.
  pub record IsLog (cl : ChangeLog db) (entries : List ChangeEntry) : Type 0 where
    pub tail_id : ℕ
    pub tail : cl.tail ≡ some tail_id
    pub not_zero : tail_id ≢ 0
    pub nothing_at_zero : get cl.nodes 0 ≡ none
    pub chain : IsChain cl.nodes tail_id entries

  -- The entry that the tail points to.
  tail_entry :
      (nodes : db.Bucket ChangeNode) (tail : ℕ) (entries : List ChangeEntry)
      → IsChain nodes tail entries
      → (ce : ChangeEntry) × (get nodes tail ≡ some (node db e ce 0))
  tail_entry nodes tail entries (last ce p q) =
      (ce, subst (λ k. get nodes k ≡ some (node db e ce 0)) p q)
  tail_entry nodes tail entries (more ce next rest nz q chain) =
      tail_entry nodes tail (next ∷ rest) chain

  -- The bucket after an append: the old tail points to the new entry.
  record IsAppended (nodes nodes' : db.Bucket ChangeNode) (tail : ℕ) (old ce : ChangeEntry)
      : Type 0 where
    was_tail : get nodes tail ≡ some (node db e old 0)
    was_absent : get nodes (entry_id db e ce) ≡ none
    not_zero : entry_id db e ce ≢ 0
    kept : (j : ℕ) → j ≢ entry_id db e ce → j ≢ tail → get nodes' j ≡ get nodes j
    old_tail : get nodes' tail ≡ some (node db e old (entry_id db e ce))
    new_tail : get nodes' (entry_id db e ce) ≡ some (node db e ce 0)

  same_entry :
      (nodes : db.Bucket ChangeNode) (i j next : ℕ) (a b : ChangeEntry)
      → i ≡ j
      → get nodes i ≡ some (node db e a 0)
      → get nodes j ≡ some (node db e b 0)
      → a ≡ b
  same_entry nodes i j next a b p q r = cc

  next_zero :
      (nodes : db.Bucket ChangeNode) (i j next : ℕ) (a b : ChangeEntry)
      → i ≡ j
      → get nodes i ≡ some (node db e a next)
      → get nodes j ≡ some (node db e b 0)
      → next ≡ 0
  next_zero nodes i j next a b p q r = cc

  absent_or_some :
      (nodes : db.Bucket ChangeNode) (i j : ℕ) (a : ChangeNode)
      → i ≡ j
      → get nodes i ≡ some a
      → get nodes j ≡ none
      → ⊥
  absent_or_some nodes i j a p q r = cc

  append-IsChain :
      (nodes nodes' : db.Bucket ChangeNode) (tail : ℕ) (old ce : ChangeEntry)
      → IsAppended nodes nodes' tail old ce
      → (entries : List ChangeEntry) → IsChain nodes tail entries
      → IsChain nodes' (entry_id db e ce) (entries ++ (ce ∷ []))
  append-IsChain nodes nodes' tail old ce a entries (last c p q) =
      more c ce [] a.not_zero
        (ap (get nodes') p
          ∙ a.old_tail
          ∙ ap (λ (x : ChangeEntry). some (node db e x (entry_id db e ce)))
              (same_entry nodes tail (entry_id db e c) 0 old c (sym p) a.was_tail q))
        (last ce refl a.new_tail)
  append-IsChain nodes nodes' tail old ce a entries (more c next rest nz q chain) =
      let was_tail = a.was_tail in
      let was_absent = a.was_absent in
      more c next (rest ++ (ce ∷ [])) nz
        (a.kept (entry_id db e c)
            (λ p.
              absent_or_some nodes (entry_id db e c) (entry_id db e ce)
                (node db e c (entry_id db e next)) p q was_absent)
            (λ p.
              nz (next_zero nodes (entry_id db e c) tail (entry_id db e next) c old p q was_tail))
          ∙ q)
        (append-IsChain nodes nodes' tail old ce a (next ∷ rest) chain)

  appended :
      (nodes : db.Bucket ChangeNode) (tail : ℕ) (old ce : ChangeEntry)
      → get nodes tail ≡ some (node db e old 0)
      → get nodes (entry_id db e ce) ≡ none
      → entry_id db e ce ≢ 0
      → IsAppended nodes
          (put
            (put nodes (entry_id db e ce) (node db e ce 0))
            tail
            (node db e old (entry_id db e ce)))
          tail
          old
          ce
  appended nodes tail old ce was absent nz =
      let id = entry_id db e ce in
      let first = put nodes id (node db e ce 0) in
      record {
        was_tail = was;
        was_absent = absent;
        not_zero = nz;
        kept = λ j p q. ground (
          arith,
          db.get-put first tail (node db e old id) j,
          db.get-put nodes id (node db e ce 0) j,
          p,
          q,
        );
        old_tail = ground (arith, db.get-put first tail (node db e old id) tail);
        new_tail = ground (
          arith,
          db.get-put first tail (node db e old id) id,
          db.get-put nodes id (node db e ce 0) id,
          λ (p : tail ≡ id). absent_or_some nodes tail id (node db e old 0) p was absent,
        );
      }

  still_tail :
      (nodes : db.Bucket ChangeNode) (tail : ℕ) (old ce : ChangeEntry)
      → get nodes tail ≡ some (node db e old 0)
      → get nodes (entry_id db e ce) ≡ none
      → get (put nodes (entry_id db e ce) (node db e ce 0)) tail ≡ some (node db e old 0)
  still_tail nodes tail old ce was absent = ground (
    arith,
    db.get-put nodes (entry_id db e ce) (node db e ce 0) tail,
    was,
    λ (p : tail ≡ entry_id db e ce).
        absent_or_some nodes tail (entry_id db e ce) (node db e old 0) p was absent,
  )

  append_runs :
      (cl : ChangeLog db) (tail : ℕ) (old ce : ChangeEntry)
      → cl.tail ≡ some tail
      → tail ≢ 0
      → get (put cl.nodes (entry_id db e ce) (node db e ce 0)) tail ≡ some (node db e old 0)
      → append_change_log db e cl ce
        ≡ ok (record {
          nodes =
              put
                (put cl.nodes (entry_id db e ce) (node db e ce 0))
                tail
                (node db e old (entry_id db e ce));
          tail = some (entry_id db e ce);
        })
  unfolding append_change_log point_tail
  append_runs cl tail old ce at nz found = rw at (ground (arith, nz, found))

  -- Reading from an entry on with NextEntry shows the entries, and then no more.
  pub Follows : ChangeLog db → List ChangeEntry → Type 0
  Follows cl [] = Unit
  Follows cl (ce ∷ []) = next_entry db e cl ce ≡ none
  Follows cl (ce ∷ next ∷ rest) = (next_entry db e cl ce ≡ some next) × Follows cl (next ∷ rest)

  head_found :
      (nodes : db.Bucket ChangeNode) (tail : ℕ) (ce : ChangeEntry) (rest : List ChangeEntry)
      → IsChain nodes tail (ce ∷ rest)
      → (next : ℕ) × (get nodes (entry_id db e ce) ≡ some (node db e ce next))
  head_found nodes tail ce rest (last c p q) = (0, q)
  head_found nodes tail ce rest (more c next more_rest nz q chain) = (entry_id db e next, q)

  reads_next :
      (cl : ChangeLog db) (ce : ChangeEntry) (next : ℕ) (found : Option ChangeNode)
      → get cl.nodes (entry_id db e ce) ≡ some (node db e ce next)
      → get cl.nodes next ≡ found
      → next_entry db e cl ce
        ≡ (elim found as (λ x. Option ChangeEntry) [ none ↦ none | some cn ↦ some cn.entry ])
  unfolding next_entry get_entry
  reads_next cl ce next found p q = rw p (rw (q, get_entry) refl)

  chain_Follows :
      (cl : ChangeLog db) (tail : ℕ) (entries : List ChangeEntry)
      → get cl.nodes 0 ≡ none
      → IsChain cl.nodes tail entries
      → Follows cl entries
  unfolding Follows
  chain_Follows cl tail entries zero (last ce p q) = reads_next cl ce 0 none q zero
  chain_Follows cl tail entries zero (more ce next rest nz q chain) =
      let (after, found) = head_found cl.nodes tail next rest chain in
      (
        reads_next cl ce (entry_id db e next) (some (node db e next after)) q found,
        chain_Follows cl tail (next ∷ rest) zero chain,
      )

  -- Where the log holds the entries, appendChangeLog of an entry with an id of its own, which is not
  -- zero, returns no error; the log holds the entry after the others, and NextEntry reads them in order.
  pub append_change_log-IsLog :
      (cl : ChangeLog db) (entries : List ChangeEntry) (ce : ChangeEntry)
      → IsLog cl entries
      → entry_id db e ce ≢ 0
      → get cl.nodes (entry_id db e ce) ≡ none
      → (cl' : ChangeLog db) × (append_change_log db e cl ce ≡ ok cl')
        × IsLog cl' (entries ++ (ce ∷ []))
        × Follows cl' (entries ++ (ce ∷ []))
  append_change_log-IsLog cl entries ce log nz absent =
      let id = entry_id db e ce in
      let (old, was) = tail_entry cl.nodes log.tail_id entries log.chain in
      let a = appended cl.nodes log.tail_id old ce was absent nz in
      let first = put cl.nodes id (node db e ce 0) in
      let chain =
        append-IsChain cl.nodes
          (put (put cl.nodes id (node db e ce 0)) log.tail_id (node db e old id)) log.tail_id old ce
          a entries log.chain in
      let nothing = a.kept 0 (λ p. nz (sym p)) (λ p. log.not_zero (sym p)) ∙ log.nothing_at_zero in
      let found : get first log.tail_id ≡ some (node db e old 0) =
        still_tail cl.nodes log.tail_id old ce was absent in
      (
        record { nodes = put first log.tail_id (node db e old id); tail = some id },
        append_runs cl log.tail_id old ce log.tail log.not_zero found,
        record {
          tail_id = id;
          tail = refl;
          not_zero = nz;
          nothing_at_zero = nothing;
          chain = chain;
        },
        chain_Follows (record { nodes = put first log.tail_id (node db e old id); tail = some id })
            id (entries ++ (ce ∷ [])) nothing chain,
      )
