-- ===== src/Tests/Demo.antt =====
-- An environment with every law that `Env` asks for: principals are numbers, the tree is a map of
-- texts, and the canister greets each client that connects.
use mathlib.Core.List.Perm
use ic_websocket_cdk_rs.Prelude.{
  ℕ, zero, suc, ◌+◌, ◌≤◌, ◌≡◌, ◌≢◌, refl, ◌⊎◌, inl, inr, Option, none, some, [], ◌∷◌, ◌++◌, Bytes,
  Text, Map, arith, get, insert, remove, get-insert, get-insert_self, get-remove, get-remove_self,
  ℕ_discrete, if_neg, length,
}
use ic_websocket_cdk_rs.Types.Messages.{
  OnOpenCallbackArgs, OnMessageCallbackArgs, OnCloseCallbackArgs, WebsocketServiceMessageContent,
  open_message, ack_message, keep_alive_message, close_message,
}
use ic_websocket_cdk_rs.Env.{Env}
use ic_websocket_cdk_rs.Env.Program.{OnCloseProgram, CallbackProgram, TimerTask}

pub text_discrete : Discrete Text
text_discrete = hlevel ℕ_discrete

pub get-insert_ne {ℓ} :
    {K V : Type ℓ} (d : Discrete K) (k j : K) (v : V) (m : Map K V)
    → k ≢ j
    → get d j (insert d k v m) ≡ get d j m
get-insert_ne d k j v m h = rw (get-insert, if_neg _ h)

pub get-remove_ne {ℓ} :
    {K V : Type ℓ} (d : Discrete K) (k j : K) (m : Map K V)
    → k ≢ j
    → get d j (remove d k m) ≡ get d j m
get-remove_ne d k j m h = rw (get-remove, if_neg _ h)

-- A timer id above all that are in use.
unfoldable pub fresh_id : Map ℕ TimerTask → ℕ
fresh_id [] = 0
fresh_id ((i, t) ∷ m) = i + fresh_id m + 1

get-above : (m : Map ℕ TimerTask) (i : ℕ) → fresh_id m ≤ i → get ℕ_discrete i m ≡ none
unfolding get fresh_id
get-above [] i h = refl
get-above ((j, t) ∷ m) i h = ground (arith, get-above m i)

pub get-fresh : (m : Map ℕ TimerTask) → get ℕ_discrete (fresh_id m) m ≡ none
get-fresh m = get-above m (fresh_id m) (omega arith)

pub get-empty : (k : Text) → get {V = Bytes} text_discrete k [] ≡ none
unfolding get
get-empty k = refl

pub singleton-injective : (p q : ℕ) → ◌≡◌ {A = Text} (p ∷ []) (q ∷ []) → p ≡ q
singleton-injective p q e = cc

abbrev encode : WebsocketServiceMessageContent ℕ → Option Bytes
encode (open_message k) = some (0 ∷ k.client_principal ∷ k.client_nonce ∷ [])
encode (ack_message n) = some (1 ∷ n ∷ [])
encode (keep_alive_message n) = some (2 ∷ n ∷ [])
encode (close_message r) = some (3 ∷ [])

abbrev decode_tag : ℕ → ℕ → WebsocketServiceMessageContent ℕ
decode_tag zero n = open_message (record { client_principal = n; client_nonce = 0 })
decode_tag (suc zero) n = ack_message n
decode_tag (suc (suc k)) n = keep_alive_message n

abbrev decode : Bytes → WebsocketServiceMessageContent ℕ ⊎ Text
decode [] = inr (1 ∷ [])
decode (t ∷ []) = inr (2 ∷ [])
decode (t ∷ n ∷ b) = inl (decode_tag t n)

-- A message without content has no encoding.
abbrev serialize : ℕ → Bytes → Bytes ⊎ Text
serialize n [] = inr (3 ∷ [])
serialize n (b ∷ bs) = inl (n ∷ b ∷ bs)

abbrev root : Map Text Bytes → Bytes
root [] = []
root ((k, v) ∷ m) = length k ∷ v ++ root m

-- The application's callbacks: a greeting, an answer, a farewell to the principal 1.
abbrev greet : OnOpenCallbackArgs ℕ → ℕ → CallbackProgram ℕ ℕ
greet args a =
    CallbackProgram.send_then args.client_principal (72 ∷ []) (λ r. CallbackProgram.finish (a + 1))

abbrev answer : OnMessageCallbackArgs ℕ → ℕ → CallbackProgram ℕ ℕ
answer args a =
    CallbackProgram.send_then args.client_principal (args.message ++ 33 ∷ [])
      (λ r. CallbackProgram.finish (a + 10))

abbrev farewell : OnCloseCallbackArgs ℕ → ℕ → OnCloseProgram ℕ ℕ
farewell args a = OnCloseProgram.finish (a + 100)

instance abbrev pub demo : Env
demo = record {
  Principal = ℕ;
  principal_discrete = ℕ_discrete;
  anonymous = 4;
  to_text = λ p. p ∷ [];
  to_text-injective = singleton-injective;
  encode_one = encode;
  decode_one = decode;
  self_describe = inl (217 ∷ []);
  serialize_message = λ m. serialize m.sequence_num m.content;
  sha256 = λ b. 32 ∷ b;
  RbTree = Map Text Bytes;
  tree_new = [];
  tree_get = get text_discrete;
  tree_insert = insert text_discrete;
  tree_delete = remove text_discrete;
  root_hash = root;
  labeled_hash = λ l h. h;
  get-new = get-empty;
  get-insert_self = get-insert_self text_discrete;
  get-insert_ne = get-insert_ne text_discrete;
  get-delete_self = get-remove_self text_discrete;
  get-delete_ne = get-remove_ne text_discrete;
  HashTree = Map Text Bytes;
  value_range = λ a b t. t;
  labeled = λ l t. t;
  serialize_tree = λ t. some (root t);
  data_certificate = λ d. some (d ++ 255 ∷ []);
  hash_order = λ xs. xs;
  hash_order-perm = λ xs. Perm.refl xs;
  TimerId = ℕ;
  timer_id_discrete = ℕ_discrete;
  Timers = Map ℕ TimerTask;
  timer_task = get ℕ_discrete;
  set_timer = λ t m. (fresh_id m, insert ℕ_discrete (fresh_id m) t m);
  clear_timer = remove ℕ_discrete;
  set_timer-fresh = λ t m. get-fresh m;
  set_timer_self = λ t m. get-insert_self ℕ_discrete (fresh_id m) t m;
  set_timer_ne = λ t m i h. get-insert_ne ℕ_discrete (fresh_id m) i t m h;
  clear_timer_self = get-remove_self ℕ_discrete;
  clear_timer_ne = get-remove_ne ℕ_discrete;
  App = ℕ;
  OnOpenCallback = Unit;
  OnMessageCallback = Unit;
  OnCloseCallback = Unit;
  on_open_program = λ f. greet;
  on_message_program = λ f. answer;
  on_close_program = λ f. farewell;
}

-- The same environment with callbacks that do nothing to the library.
abbrev pub printing : Env
printing = record demo {
  on_open_program = λ f args a. CallbackProgram.finish a;
  on_message_program = λ f args a. CallbackProgram.finish a;
  on_close_program = λ f args a. OnCloseProgram.finish a;
}

-- The environment `printing` where every message has an encoding.
abbrev pub serializing : Env
serializing = record printing { serialize_message = λ m. inl (m.sequence_num ∷ m.content) }
