-- ===== src/Text/Log.antt =====
-- The arguments of a line of the log: `INFO_LOG` of log/logger.h.
use new_rpc.Base.{ℕ, ◌-◌, false, List, [], ◌∷◌, take, drop}
use new_rpc.Serialization.Memory.{Result, ok, ◌>>=◌, Cursor, cursor, new_bytes}
use new_rpc.Text.Shape.{Shape, Shown}
use new_rpc.Text.ToString.{value_to_string}

-- `__VA_ARGS__`
pub data Arguments : Type 0 where
  no_arguments : Arguments
  argument : (s : Shape) → Shown s → Arguments → Arguments

-- `std::string_view(buffer + before_pos, pos - before_pos)`, where `buffer` still changes behind it.
abbrev pub View : Type 0
View = ℕ × ℕ

abbrev pub log_buffer_len : ℕ
log_buffer_len = 1024

-- `__ARG_TO_STRING__` for each argument.
unfoldable pub args_to_string : Arguments → Cursor → Result (List View × Cursor)
unfolding value_to_string
args_to_string no_arguments c = ok ([], c)
args_to_string (argument s v rest) c = do
  c' ← value_to_string s v false log_buffer_len c
  (views, c'') ← args_to_string rest c'
  ok ((c.pos, c'.pos - c.pos) ∷ views, c'')

-- The text of a view in the buffer.
abbrev pub view_text : List ℕ → View → List ℕ
view_text buffer (from, size) = take size (drop from buffer)

abbrev pub view_texts : List ℕ → List View → List (List ℕ)
view_texts buffer [] = []
view_texts buffer (v ∷ vs) = view_text buffer v ∷ view_texts buffer vs

-- What `INFO_LOG` hands to spdlog for its arguments.
unfoldable pub info_log : Arguments → Result (List (List ℕ))
unfolding args_to_string new_bytes
info_log args = args_to_string args (cursor (new_bytes log_buffer_len) 0) >>= λ (views, c).
    ok (view_texts c.memory views)
