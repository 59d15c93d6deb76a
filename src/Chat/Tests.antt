-- ===== src/Chat/Tests.antt =====
-- A conversation of one workspace, asked and read by two.
use mathlib.Core.Logic.Or
use mathlib.Core.List.{Mem, Mem-prop, mem-cons, mem-cons_self, mem-cons_of_mem}
use keel_be.Prelude.{
  ℕ, suc, ◌≡◌, refl, subst, ◌≤◌, Text, true, none, some, List, [], ◌∷◌, ◌++◌, map, codes, arith,
  ◌==◌, length, leb, All, inl, inr, Bool-cases, min, max, if◌then◌else◌,
}
use keel_be.Fixtures.{ada, docs}
use keel_be.Models.Chat.{Conversation, ChatMessage}
use keel_be.Core.Errors.{Exc}
use keel_be.Core.Settings.{defaults}
use keel_be.Core.Session.{ok, err}
use keel_be.Retrieval.{Sources}
use keel_be.Chat.{
  Env, Score, Message, Tables, get_messages, load_history, messages_of, conversation_not_found,
}
use keel_be.Chat.Answers.{Frame, token, Turn, persist, stream_answer, answer_once}
use keel_be.Chat.Reads.{NewestFirst, OldestFirst, OrderLaws, get_messages_lem, foreign_unread}
use keel_be.Chat.Stored.{Exchange}
use keel_be.Chat.Turns.{Ended, stream_answer_lem, persist_unscoped, api_key_chat_lost}

abbrev sources : Sources
sources = record {
  qdrant = record {
    Vector = Unit;
    Score = ℕ;
    query_points = λ collection v must limit threshold. ok [];
  };
  leb_score = leb;
  embed_query = λ query. ok tt;
  find_document_ids = λ workspace query. [];
  default_threshold = 1;
}

abbrev Row : Type 0
Row = ChatMessage ℕ

insert : Row → List Row → List Row
insert m [] = m ∷ []
insert m (n ∷ ns) =
    let later = n ∷ insert m ns in if leb n.created_at m.created_at then m ∷ n ∷ ns else later

sort : List Row → List Row
unfolding insert
sort [] = []
sort (m ∷ ms) = insert m (sort ms)

insert-All : (P : Row → Type 0) (m : Row) (ns : List Row) → P m → All P ns → All P (insert m ns)
unfolding insert
insert-All P m [] h k = (h, tt)
insert-All P m (n ∷ ns) h k = elim (Bool-cases (leb n.created_at m.created_at)) [
  | inl le ↦ rw le (h, k)
  | inr gt ↦ rw gt (k.0, insert-All P m ns h k.1)
]

length-insert : (m : Row) (ns : List Row) → length (insert m ns) ≡ suc (length ns)
unfolding insert
length-insert m [] = refl
length-insert m (n ∷ ns) = ground (arith, length-insert m ns)

abbrev env : Env
env = record {
  src = sources;
  settings = defaults;
  count_tokens = length;
  db_up = true;
  now = 50;
  new_conversation_id = 400;
  new_user_id = 99;
  uuid = λ t. ok 1;
  threshold = λ n. n;
  round4 = λ s. s;
  mean = λ ss. 0;
  zero_score = 0;
  newest_first = sort;
  updated_first = λ cs. cs;
  stream = λ model messages. record { events = []; failure = none };
  complete = λ model messages attempt. ok (record {
    content = codes "yes";
    prompt_tokens = 1;
    completion_tokens = 1;
    total_tokens = 2;
  });
}

All-older :
    (m n : Row) (ns : List Row)
    → n.created_at ≤ m.created_at
    → All (λ (x : Row). x.created_at ≤ n.created_at) ns
    → All (λ (x : Row). x.created_at ≤ m.created_at) ns
All-older m n [] h k = tt
All-older m n (x ∷ ns) h k = (omega (arith, h, k.0), All-older m n ns h k.1)

insert-NewestFirst : (m : Row) (ns : List Row) → NewestFirst env ns → NewestFirst env (insert m ns)
unfolding insert
insert-NewestFirst m [] h = (tt, tt)
insert-NewestFirst m (n ∷ ns) h = elim (Bool-cases (leb n.created_at m.created_at)) [
  | inl le ↦
      let below : n.created_at ≤ m.created_at = ground arith in
      rw le ((below, All-older m n ns below h.0), h)
  | inr gt ↦ rw gt (
    insert-All (λ (x : Row). x.created_at ≤ n.created_at) m ns (ground arith) h.0,
    insert-NewestFirst m ns h.1,
  )
]

sort-NewestFirst : (ms : List Row) → NewestFirst env (sort ms)
unfolding sort
sort-NewestFirst [] = tt
sort-NewestFirst (m ∷ ms) = insert-NewestFirst m (sort ms) (sort-NewestFirst ms)

sort-All : (P : Row → Type 0) (ms : List Row) → All P ms → All P (sort ms)
unfolding sort
sort-All P [] h = tt
sort-All P (m ∷ ms) h = insert-All P m (sort ms) h.0 (sort-All P ms h.1)

length-sort : (ms : List Row) → length (sort ms) ≡ length ms
unfolding sort
length-sort [] = refl
length-sort (m ∷ ms) = ground (arith, length-insert m (sort ms), length-sort ms)

Mem-insert : (x m : Row) (ns : List Row) → Mem x (m ∷ ns) → Mem x (insert m ns)
unfolding insert
Mem-insert x m [] h = h
Mem-insert x m (n ∷ ns) h = elim (Bool-cases (leb n.created_at m.created_at)) [
  | inl le ↦ rw le h
  | inr gt ↦ rw gt (
      Or.elim Mem-prop (mem-cons.0 h)
        (λ e. mem-cons_of_mem n (Mem-insert x m ns (subst (λ y. Mem x (y ∷ ns)) e mem-cons_self)))
        (λ k.
          Or.elim Mem-prop (mem-cons.0 k)
            (λ e. subst (λ y. Mem x (y ∷ insert m ns)) e mem-cons_self)
            (λ l. mem-cons_of_mem n (Mem-insert x m ns (mem-cons_of_mem m l)))))
]

Mem-sort : (x : Row) (ms : List Row) → Mem x ms → Mem x (sort ms)
unfolding sort
Mem-sort x [] h = h
Mem-sort x (m ∷ ms) h = Mem-insert x m (sort ms) (
    Or.elim Mem-prop (mem-cons.0 h) (λ e. subst (λ y. Mem x (y ∷ sort ms)) e mem-cons_self)
      (λ k. mem-cons_of_mem m (Mem-sort x ms k)))

env-OrderLaws : OrderLaws env
env-OrderLaws = record {
  sorted = sort-NewestFirst;
  newest_first-All = sort-All;
  length-newest_first = length-sort;
}

abbrev said : ℕ → Text → Row
said at content = record {
  conversation_id = 300;
  workspace_id = 20;
  role = "user";
  content = content;
  confidence = none;
  retrieved_chunk_ids = none;
  evidence = [];
  created_at = at;
}

abbrev theirs : Conversation
theirs = record { id = 300; workspace_id = 20; user_id = 1; title = codes "hi"; updated_at = 1 }

abbrev db : Tables env
db = record {
  workspaces = docs ∷ record docs { id = 21 } ∷ [];
  users = ada ∷ [];
  conversations = theirs ∷ [];
  messages = said 1 (codes "a") ∷ said 2 (codes "b") ∷ [];
}

abbrev turn : Turn (Score env)
turn = record {
  query = codes "q";
  answer = codes "r";
  confidence = 0;
  evidence = [];
  chunk_ids = [];
}

get_messages_lem_example :
    (ms : List (Message env)) × (get_messages env 20 300 1 db ≡ ok ms)
    × (length ms ≡ min (max 1 1) (length (messages_of env 300 db)))
    × All (λ m. (m.conversation_id == 300) ≡ true) ms
    × OldestFirst env ms
get_messages_lem_example = get_messages_lem env env-OrderLaws db 20 300 1 {conv = theirs} refl refl

foreign_unread_example :
    (get_messages env 21 300 5 db ≡ err conversation_not_found)
    × (load_history env (some 300) 21 db ≡ [])
foreign_unread_example = foreign_unread env db 21 300 5 (λ conv found same. ground arith)

stream_answer_lem_example :
    let r = stream_answer env 20 (some 1) (codes "q") (some 300) db [] in
    (parts : List Text) × (last : Frame (Score env)) × (r.0 ≡ map token parts ++ last ∷ [])
    × Ended env 20 (some 1) (some 300) (codes "q") db [] parts last r.1
stream_answer_lem_example = stream_answer_lem env 20 (some 1) (some 300) (codes "q") db []

persist_unscoped_example :
    (db' : Tables env) × (q : Row) × (a : Row) × (ms : List Row) × (persist env 21
        (some 1)
        (some 300)
        turn
        db
      ≡ (ok 300, db'))
    × (messages_of env 300 db' ≡ messages_of env 300 db ++ (q ∷ a ∷ []))
    × Exchange env 21 300 (codes "q") (codes "r") 0 [] q a
    × (get_messages env 21 300 500 db' ≡ err conversation_not_found)
    × (get_messages env 20 300 500 db' ≡ ok ms)
    × Mem q ms
    × Mem a ms
persist_unscoped_example =
    persist_unscoped env 21 300 (some 1) turn db {conv = theirs} {w = record docs { id = 21 }} refl
      refl refl (λ (e : 20 ≡ 21). ground arith) env-OrderLaws Mem-sort (omega arith)

api_key_chat_lost_example :
    (e : Exc) × ((answer_once env 20 none (codes "q") none db []).0 ≡ err e)
    × ((answer_once env 20 none (codes "q") none db []).1 ≡ db)
api_key_chat_lost_example = api_key_chat_lost env 20 (codes "q") db [] refl
