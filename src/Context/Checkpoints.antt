-- ===== src/Context/Checkpoints.antt =====
-- internal/context/manager.go: durable threads and their checkpoints. The tables of the SQLite
-- database are values, and each query is written out as what its SQL text says; whether a query
-- fails is an input. The encodings, the digest and the clock are parameters.
pub mod Newest
pub mod Latest
pub mod Saving
pub mod Saved
pub mod Loading
pub mod Retention
use gobot.Prelude.{
  ℕ, zero, suc, ◌+◌, ltb, ◌==◌, Bool, true, false, not, ◌&&◌, ◌||◌, Option, none, some, List, [],
  ◌∷◌, map, String, str_eq, filter, take, if◌then◌else◌,
}
use gobot.Prelude.Int.{ℤ, pos, ltb_ℤ, leb_ℤ}
use gobot.Prelude.Results.{Err, sql_error, json_error, wrapped, plain, Result, ok, err}
use gobot.Agent.Message.{Message}

abbrev pub max_checkpoints_per_thread : ℕ
max_checkpoints_per_thread = 10

pub record ThreadSnapshot : Type 0 where
  pub iteration : ℤ
  pub messages : List Message
  pub model : String
  pub metadata : String

-- A row of the table `threads`, less its key.
pub record Thread : Type 0 where
  pub status : String
  pub model : String
  pub metadata : String
  pub updated_at : ℤ
  pub estimated_tokens : Option ℤ
  pub last_compacted_at : Option String

-- A row of the table `checkpoints`.
pub record Checkpoint : Type 0 where
  pub checkpoint_id : ℕ
  pub thread_id : String
  pub iteration : ℤ
  pub state : String
  pub checksum : Option String

-- `next_id` is the next key that AUTOINCREMENT gives; it never gives one again.
pub record Db : Type 0 where
  pub threads : String → Option Thread
  pub checkpoints : List Checkpoint
  pub next_id : ℕ

-- encoding/json, the hex digest of crypto/sha256 and the time formats.
pub record Codec : Type 0 where
  pub marshal : List Message → Option String
  pub unmarshal : String → Option (List Message)
  pub checksum : String → String
  pub format_time : ℤ → String
  pub parse_time : String → Option ℤ
  pub parse_metadata : String → String

pub data Query : Type 0 where
  create_thread_exec begin_tx insert_checkpoint prune_exec touch_thread_exec commit_tx : Query
  select_status select_latest select_thread complete_exec update_tokens select_tokens : Query

abbrev pub put_thread : String → Option Thread → Db → Db
put_thread id t db = record db { threads = λ j. if str_eq j id then t else db.threads j }

-- `INSERT OR REPLACE`: the columns that it does not name take their defaults.
unfoldable pub create_thread :
    (Query → Bool) → ℤ → String → String → String → Db → Result (Unit {0}) × Db
create_thread fails now id model metadata db =
    if fails create_thread_exec then (err (wrapped "CreateThread: exec" sql_error), db) else (
      ok tt,
      put_thread id
          (some (record {
            status = "active";
            model = model;
            metadata = metadata;
            updated_at = now;
            estimated_tokens = some (pos 0);
            last_compacted_at = none;
          }))
          db,
    )

-- `ORDER BY iteration DESC, checkpoint_id DESC`.
unfoldable pub is_newer : Checkpoint → Checkpoint → Bool
is_newer a b =
    ltb_ℤ b.iteration a.iteration
    || (leb_ℤ b.iteration a.iteration && ltb b.checkpoint_id a.checkpoint_id)

unfoldable pub insert_newest : Checkpoint → List Checkpoint → List Checkpoint
unfolding is_newer
insert_newest c [] = c ∷ []
insert_newest c (d ∷ ds) =
    let rest = insert_newest c ds in if is_newer c d then c ∷ d ∷ ds else d ∷ rest

unfoldable pub order_newest : List Checkpoint → List Checkpoint
unfolding insert_newest
order_newest [] = []
order_newest (c ∷ cs) = insert_newest c (order_newest cs)

abbrev pub is_of : String → Checkpoint → Bool
is_of id c = str_eq c.thread_id id

abbrev pub of_thread : String → List Checkpoint → List Checkpoint
of_thread id cs = filter (is_of id) cs

unfoldable pub kept_ids : String → List Checkpoint → List ℕ
unfolding order_newest
kept_ids id cs =
    map (λ c. c.checkpoint_id) (take max_checkpoints_per_thread (order_newest (of_thread id cs)))

unfoldable pub is_in : ℕ → List ℕ → Bool
is_in i [] = false
is_in i (j ∷ js) = (i == j) || is_in i js

-- The `DELETE` of SaveSnapshot, by the rows that it leaves.
unfoldable pub prune_checkpoints : String → List Checkpoint → List Checkpoint
unfolding kept_ids is_in
prune_checkpoints id cs =
    filter (λ c. not (is_of id c) || is_in c.checkpoint_id (kept_ids id cs)) cs

unfoldable pub touch_thread : ℤ → String → Db → Db
touch_thread now id db = elim (db.threads id) [
  | none ↦ db
  | some t ↦ put_thread id (some (record t { updated_at = now })) db
]

-- What a committed transaction of SaveSnapshot makes of the database.
unfoldable pub saved : Codec → ℤ → String → ℤ → String → Db → Db
unfolding prune_checkpoints touch_thread
saved codec now id iteration state db =
    let row : Checkpoint = record {
      checkpoint_id = db.next_id;
      thread_id = id;
      iteration = iteration;
      state = state;
      checksum = some (codec.checksum state);
    } in
    touch_thread now id (record db {
      checkpoints = prune_checkpoints id (row ∷ db.checkpoints);
      next_id = suc db.next_id;
    })

-- A query that fails inside the transaction has it rolled back.
unfoldable pub save_snapshot :
    Codec → (Query → Bool) → ℤ → String → ℤ → List Message → Db → Result Bool × Db
unfolding saved
save_snapshot codec fails now id iteration messages db = elim (codec.marshal messages) [
  | none ↦ (err (wrapped "SaveSnapshot: marshal messages" json_error), db)
  | some state ↦ elim (codec.unmarshal state) [
    | none ↦ (err (wrapped "SaveSnapshot: validate round-trip" json_error), db)
    | some check ↦
        if fails begin_tx
        then (err (wrapped "SaveSnapshot: begin tx" sql_error), db)
        else if fails insert_checkpoint
        then (err (wrapped "SaveSnapshot: insert checkpoint" sql_error), db)
        else if fails prune_exec
        then (err (wrapped "SaveSnapshot: prune checkpoints" sql_error), db)
        else if fails touch_thread_exec
        then (err (wrapped "SaveSnapshot: update thread" sql_error), db)
        else if fails commit_tx
        then (err (wrapped "SaveSnapshot: commit" sql_error), db)
        else (ok true, saved codec now id iteration state db)
  ]
]

-- A failed query counts as a thread that is not completed.
unfoldable pub is_completed : (Query → Bool) → String → Db → Bool
is_completed fails id db =
    if fails select_status
    then false
    else elim (db.threads id) [ none ↦ false | some t ↦ str_eq t.status "completed" ]

unfoldable pub latest : String → Db → Option Checkpoint
unfolding order_newest
latest id db = elim (order_newest (of_thread id db.checkpoints)) [ [] ↦ none | c ∷ cs ↦ some c ]

-- A checksum that is NULL or empty is not compared.
unfoldable pub checksum_agrees : Codec → Checkpoint → Bool
checksum_agrees codec c = elim c.checksum [
  | none ↦ true
  | some sum ↦ str_eq sum "" || str_eq (codec.checksum c.state) sum
]

-- The model and the metadata are the thread's; a missing row leaves both empty.
abbrev pub thread_snapshot : Codec → String → Db → ℤ → List Message → ThreadSnapshot
thread_snapshot codec id db iteration messages = record {
  iteration = iteration;
  messages = messages;
  model = elim (db.threads id) [ none ↦ "" | some t ↦ t.model ];
  metadata = codec.parse_metadata (elim (db.threads id) [ none ↦ "" | some t ↦ t.metadata ]);
}

unfoldable pub with_thread :
    Codec → (Query → Bool) → String → Db → ℤ → List Message → Result (Option ThreadSnapshot)
with_thread codec fails id db iteration messages =
    if fails select_thread
    then err (wrapped "LoadLatest: scan thread" sql_error)
    else ok (some (thread_snapshot codec id db iteration messages))

unfoldable pub load_latest : Codec → (Query → Bool) → String → Db → Result (Option ThreadSnapshot)
unfolding is_completed latest checksum_agrees with_thread
load_latest codec fails id db =
    if is_completed fails id db
    then ok none
    else if fails select_latest
    then err (wrapped "LoadLatest: scan checkpoint" sql_error)
    else elim (latest id db) [
      | none ↦ ok none
      | some c ↦
          if not (checksum_agrees codec c)
          then err (plain "LoadLatest: checksum mismatch")
          else elim (codec.unmarshal c.state) [
            | none ↦ err (wrapped "LoadLatest: unmarshal state" json_error)
            | some messages ↦ with_thread codec fails id db c.iteration messages
          ]
    ]

unfoldable pub complete_thread : (Query → Bool) → ℤ → String → Db → Result (Unit {0}) × Db
complete_thread fails now id db =
    if fails complete_exec then (err (wrapped "CompleteThread: exec" sql_error), db) else (
      ok tt,
      elim (db.threads id) [
        | none ↦ db
        | some t ↦ put_thread id (some (record t { status = "completed"; updated_at = now })) db
      ],
    )

unfoldable pub update_session_tokens :
    Codec → (Query → Bool) → String → ℤ → Option ℤ → Db → Result (Unit {0}) × Db
update_session_tokens codec fails id tokens compacted_at db =
    if fails update_tokens
    then (err (wrapped "UpdateSessionTokens: exec" sql_error), db)
    else let compact_arg : Option String = elim compacted_at [
      | none ↦ none
      | some t ↦ some (codec.format_time t)
    ] in
      (
        ok tt,
        elim (db.threads id) [
          | none ↦ db
          | some t ↦
              put_thread id
                (some
                  (record t { estimated_tokens = some tokens; last_compacted_at = compact_arg }))
                db
        ],
      )

unfoldable pub get_session_tokens : Codec → (Query → Bool) → String → Db → Result (ℤ × Option ℤ)
get_session_tokens codec fails id db =
    if fails select_tokens
    then err (wrapped "GetSessionTokens: scan" sql_error)
    else elim (db.threads id) [
      | none ↦ ok (pos 0, none)
      | some t ↦ ok (
        elim t.estimated_tokens [ none ↦ pos 0 | some n ↦ n ],
        elim t.last_compacted_at [
          | none ↦ none
          | some text ↦ if str_eq text "" then none else codec.parse_time text
        ],
      )
    ]
