-- ===== src/Server/Exchanges.antt =====
-- The messages that a stream of src/server.rs hands to its service, and the replies to them.
use grpc_rust.Prelude.{
  All-append, ◌≡◌, ◌∙◌, refl, ap, sym, List, [], ◌∷◌, ◌++◌, Bytes, All, append_assoc, append-nil,
}
use grpc_rust.Outcome.{returns}
use grpc_rust.Grpc.RoundTrip.{wire}
use grpc_rust.Method.{ServerServiceDefinition, handle_method}

-- A message that was handed to the service under a path, and its reply.
pub record Exchange : Type 0 where
  pub path : Bytes
  pub message : Bytes
  pub reply : Bytes

abbrev pub messages : List Exchange → Bytes
messages [] = []
messages (x ∷ xs) = wire x.message ++ messages xs

abbrev pub all_replies : List Exchange → Bytes
all_replies [] = []
all_replies (x ∷ xs) = wire x.reply ++ all_replies xs

messages-append : (xs ys : List Exchange) → messages (xs ++ ys) ≡ messages xs ++ messages ys
messages-append [] ys = refl
messages-append (x ∷ xs) ys =
    ap (λ t. wire x.message ++ t) (messages-append xs ys)
    ∙ sym (append_assoc (wire x.message) (messages xs) (messages ys))

all_replies-append :
    (xs ys : List Exchange) → all_replies (xs ++ ys) ≡ all_replies xs ++ all_replies ys
all_replies-append [] ys = refl
all_replies-append (x ∷ xs) ys =
    ap (λ t. wire x.reply ++ t) (all_replies-append xs ys)
    ∙ sym (append_assoc (wire x.reply) (all_replies xs) (all_replies ys))

-- The service replied so to the message under the path.
abbrev pub IsAnswer : ServerServiceDefinition → Exchange → Type 0
IsAnswer service x = handle_method service x.path x.message ≡ returns x.reply

-- Between two states of a stream's buffers: the messages of some exchanges were taken from the front of
-- what was to be read, and their replies were written, both framed and in the order of the exchanges.
pub record Exchanged (service : ServerServiceDefinition) (input output input' output' : Bytes)
    : Type 0 where
  pub exchanges : List Exchange
  pub answered : All (IsAnswer service) exchanges
  pub taken : input ≡ messages exchanges ++ input'
  pub written : output' ≡ output ++ all_replies exchanges

pub Exchanged-refl :
    (service : ServerServiceDefinition) (input output : Bytes)
    → Exchanged service input output input output
Exchanged-refl service input output = record {
  exchanges = [];
  answered = tt;
  taken = refl;
  written = sym (append-nil output);
}

-- What was exchanged before a chunk, and with it.
pub Exchanged-chunk :
    (service : ServerServiceDefinition) (input chunk output buf buf' written written' : Bytes)
    → Exchanged service input output buf written
    → Exchanged service (buf ++ chunk) written buf' written'
    → Exchanged service (input ++ chunk) output buf' written'
Exchanged-chunk service input chunk output buf buf' written written' x y = record {
  exchanges = x.exchanges ++ y.exchanges;
  answered = All-append (IsAnswer service) x.exchanges y.exchanges x.answered y.answered;
  taken =
      ap (λ (t : Bytes). t ++ chunk) x.taken
      ∙ append_assoc (messages x.exchanges) buf chunk
      ∙ ap (λ (t : Bytes). messages x.exchanges ++ t) y.taken
      ∙ sym (append_assoc (messages x.exchanges) (messages y.exchanges) buf')
      ∙ ap (λ (t : Bytes). t ++ buf') (sym (messages-append x.exchanges y.exchanges));
  written =
      y.written
      ∙ ap (λ (t : Bytes). t ++ all_replies y.exchanges) x.written
      ∙ append_assoc output (all_replies x.exchanges) (all_replies y.exchanges)
      ∙ ap (λ (t : Bytes). output ++ t) (sym (all_replies-append x.exchanges y.exchanges));
}
