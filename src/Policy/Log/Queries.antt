-- ===== src/Policy/Log/Queries.antt =====
-- What the two queries on the log return.
use mini_internet_extention.Prelude.{
  ℕ, ◌≡◌, ◌∙◌, ◌&&◌, List, ◌==◌, Eq_text, Text, any, elem, elem-distinct, IsSimple,
  IsSimple-distinct, elem-select,
}
use mini_internet_extention.Policy.Log.{Entry, message_text, is_simple_for, get_simple_as_log}

-- A text is in the result for an AS exactly if some logged entry of level ERROR-SIMPLE for that AS
-- reads so, and no text is in it twice.
get_simple_as_log_correct :
    (logs : List Entry) (asn : ℕ) (t : Text)
    → (elem t (get_simple_as_log logs asn)
        ≡ any (λ e. is_simple_for asn e && t == message_text e.message) logs)
      × IsSimple (get_simple_as_log logs asn)
unfolding get_simple_as_log
get_simple_as_log_correct logs asn t = (
  elem-distinct t _ ∙ elem-select t (λ e. message_text e.message) (is_simple_for asn) logs,
  IsSimple-distinct _,
)
