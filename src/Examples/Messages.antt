-- ===== src/Examples/Messages.antt =====
-- A run of the message splitter.
use nyanya_agent.Prelude.{some, List, [], ◌∷◌, ◌≡◌, arith}
use nyanya_agent.Paths.{Text}
use nyanya_agent.Messages.{split_message}
use nyanya_agent.Messages.Split.{IsSplit, split_message-IsSplit}

-- "ab\ncd\ne"
abbrev a_reply : Text
a_reply = 97 ∷ 98 ∷ 10 ∷ 99 ∷ 100 ∷ 10 ∷ 101 ∷ []

split_message-IsSplit_example :
    (chunks : List Text) × (split_message a_reply 4 ≡ some chunks) × IsSplit 4 a_reply chunks
split_message-IsSplit_example = split_message-IsSplit a_reply 4 (omega arith)
