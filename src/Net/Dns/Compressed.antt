-- ===== src/Net/Dns/Compressed.antt =====
-- net/dns.c: `dns_response_handler` on a response whose first answer gives its name as a pointer.
use ephemeral_os.Base.{ℕ, ◌<◌, List, [], ◌∷◌, ◌++◌, Bytes, length}

-- A label of a name: 1 to 63 bytes.
abbrev pub IsLabel : Bytes → Type 0
IsLabel l = (0 < length l) × (length l < 64)

-- The labels of a name, each behind its length; the zero byte that ends the name is not among these.
abbrev pub label_bytes : List Bytes → Bytes
label_bytes [] = []
label_bytes (l ∷ ls) = length l ∷ (l ++ label_bytes ls)

-- What stands behind the labels: the zero byte, the type and class of the question, and an answer that
-- begins with a pointer and is of type A and length 4, with a class and a time to live.
abbrev pub question_and_answer : ℕ → ℕ → ℕ → ℕ → ℕ → ℕ → ℕ → ℕ → ℕ → ℕ → ℕ → Bytes → Bytes
question_and_answer q1 q2 q3 q4 offset c1 c2 t1 t2 t3 t4 rest =
    0 ∷ q1 ∷ q2 ∷ q3 ∷ q4 ∷ 0xc0 ∷ offset ∷ 0 ∷ 1 ∷ c1 ∷ c2 ∷ t1 ∷ t2 ∷ t3 ∷ t4 ∷ 0 ∷ 4 ∷ rest
