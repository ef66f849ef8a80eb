-- ===== src/Qrcode/Rows.antt =====
-- The unique columns of `PixTransaction`, app/pix/models.py, which the database enforces when a row
-- is written.
use biocodetechpay.Prelude.{Bool, false, not, ◌&&◌, ◌||◌, Option, some, Text, text_eq, ◌==◌, any}
use biocodetechpay.Store.{Db, PixTransaction}

abbrev pub same_hash : Option Text → Option Text → Bool
same_hash (some a) (some b) = text_eq a b
same_hash _ _ = false

-- The primary key, `idempotency_key`, and `user_id` with `payload_hash`, of which a null equals none.
abbrev pub clashes : PixTransaction → PixTransaction → Bool
clashes new t =
    new.id == t.id
    || text_eq new.idempotency_key t.idempotency_key
    || new.user_id == t.user_id && same_hash new.payload_hash t.payload_hash

abbrev pub can_insert : PixTransaction → Db → Bool
can_insert new db = not (any (clashes new) db.transactions)
