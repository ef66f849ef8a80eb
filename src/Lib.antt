-- ===== src/Lib.antt =====
-- BioCodeTechPay, a digital account with PIX transfers, boletos and fees (Python, FastAPI and
-- SQLAlchemy, under app/).
--
-- How the program works. A user (app/auth/models.py) has a balance. `create_pix` of
-- app/pix/service.py makes a transaction: to another user of the platform it moves the balances at
-- once (app/pix/internal_transfer.py); to the outside it writes a row, hands the transfer to the
-- payment gateway and leaves the row in processing, with a pending ledger entry and no debit. The
-- gateway's events (`_process_asaas_webhook_event` of app/pix/router.py) then debit value and fee,
-- or release them. Fees come from app/core/fees.py, documents are validated by
-- app/core/document_validator.py, and app/antifraude/rules.py screens transactions. Boletos
-- (app/boleto/service.py) and the monthly plan (app/minha_conta/service.py) are paid from the
-- balance. BR Codes (app/core/pix_emv.py) carry the keys of charges, and a circuit breaker guards
-- the gateway. A user issues charges; the gateway's payment events, or a request that asks the
-- gateway, confirm them and credit the user, and another user may pay their codes from the balance.
-- The endpoints ask who the caller is (app/auth/dependencies.py), and the administrator edits
-- accounts and moves the money of the matrix account (app/web_routes.py). A worker
-- (app/core/audit_worker.py) compares the sum of all balances with the balance at the gateway, and
-- moves the difference to or from the matrix account.
--
-- Which file models which part:
--   Prelude      text, lists, tables of rows and signed numbers that the parts share
--   Money        amounts and their printed form (`quantize`, `{:.2f}`)
--   Fees         app/core/fees.py; Fees/Bounds has the theorems
--   Documents    app/core/document_validator.py; Documents/CheckDigits has the theorems
--   Antifraud    app/antifraude/rules.py and schemas.py; Antifraud/Score has the theorems
--   Boleto       app/boleto/service.py: Barcode, Detection (single-digit errors), Payment, Balance
--   Subscription app/minha_conta: the monthly plan; Subscription/Charges has the theorems
--   Emv          app/core/pix_emv.py and the readers of app/pix/router.py: Tlv (fields), Build, Parse,
--                Keys (key, payload location and amount); the theorems are in Steps, RoundTrip,
--                Reads, Checksum and Hang
--   Breaker      `CircuitBreaker` of app/adapters/asaas_adapter.py; Breaker/Safety has the theorems
--   Store        the tables of app/auth/models.py, app/pix/models.py and app/boleto/models.py, and
--                their queries
--   Pix          app/pix and app/core/matrix.py: Ledger (balances and pending entries), Matrix (fee
--                credit), Transfer (internal), Create (`create_pix`), Lifecycle (confirm, cancel,
--                get), Receipt (`credit_pix_receipt`), Webhook (transfer events), Screen
--                (`_screen_antifraud`); the theorems are in Conservation, Credit,
--                Solvency, Replay, Deferred, Events, Velocity and Deviations
--   Http         what an endpoint answers: a value, or the status of its error, and the database that stays
--   Charge       incoming payments, of app/pix/router.py: Confirm (confirmation of a charge on request and by
--                asking the gateway, and `sync_pix_charge_status`), Inbound (payment events),
--                Deposit (`verify_static_deposit`), Gate (the webhook and the validation of withdrawals);
--                the theorems are in Credits, Settle, Once, Book (refinement of an abstract book), Marks,
--                Repeat, Guards, Diagram (moves of a status) and Deviations
--   Qrcode       `pay_pix_qrcode` of app/pix/router.py: Rows (unique columns), Lookup (search for a
--                charge of the platform), Call (the request and its row), Pay (both routes); the theorems
--                are in Internal, External, Settled, Guarded, Replay and Losses
--   Auth         app/auth: Limiter (`_rate_limit`), Session (tokens, cookies, the guards of
--                dependencies.py), Account (registration and confirmation), Recovery (password reset);
--                the theorems are in Window, Access, Admitted, Enrolment and Reset
--   Api          the endpoints of app/pix/router.py around the services: Send, Refresh, Issue, Keys
--                and Statement; the theorems are in Fresh, Read, Claimed and Listed
--   Gateway      `AsaasAdapter` of app/adapters/asaas_adapter.py: Wire (requests, retries, the breaker), Settings,
--                Charges, Payments, Psp (the charge at a payload location), Fields and Codes
--                (`pay_qr_code`); the theorems are in Sends and Retries (what is sent), Settles and Once
--                (what is paid) and Issued (the codes of the platform)
--   Consult      what a payer is told of a code and of a key, in app/pix/router.py: Location
--                (`_extract_pix_url`, `_fetch_pix_charge_url`), Answers (`consultar_pix_qrcode`), Keys
--                (`lookup_pix_key_endpoint`); the theorems are in Same, Issued, Founded and Refused
--   Reconcile    app/core/audit_worker.py and `matrix_audit` of app/web_routes.py: Sums, Worker (a cycle),
--                Daily (the loop), Endpoint, Forensics (of fees); the theorems are in Customers, Matches,
--                Agreement and Days
--   Admin        app/web_routes.py: Users (edits and deletion of accounts), Treasury (movements of the
--                matrix account); the theorems are in Identity and Sweep
-- Each Tests module runs the definitions on concrete inputs.
--
-- How state and operations correspond. A SQLAlchemy session is a `Db`, a record of tables, and an
-- operation is a function from a `Db` to a `Db` with a result or an error: where the source raises,
-- the database that is returned is what stays committed: the old one, but for what the source has
-- committed before the raise, such as the failed row of a dispatch that the gateway refuses.
-- Answers of the gateway, fresh identifiers and the clock are arguments. A table holds its latest
-- row first, and `first()` is the first row in that order, which the source's queries leave open.
-- Amounts are whole cents: the columns are Numeric(15, 2), on which the source's `quantize` is the
-- identity, and a balance is an integer that may be negative. Identifiers are numbers, since they
-- are only compared; text is a list of ASCII codes; times are numbers. Sizes of integers and
-- columns set no bound, as Python's integers have none. Every loop is over a list or a fixed count,
-- but for the loop over the fields of a payload: it takes fuel, one round for each field, and says
-- whether it has ended; more fuel than fields is enough for an encoded payload.
--
-- What is a parameter. Code of other packages is an argument: the hash of passwords (`Hasher`) and
-- the signed tokens (`Jwt`) are records with the laws that the code relies on, that a hash verifies
-- what was hashed and that a token decodes to its claims until it expires; the answers of the
-- gateway, the candidates that a regular expression finds in a payload, the digest of a payload and
-- the amount that the reader of BR Codes finds are data of the call. For the adapter itself the
-- network, the clock and the generator of one-time codes are a `World`, which answers each attempt
-- by its number; the provider at a payload location, `json.loads` and the decoding of base64 are a
-- `Psp`, and `float` is a function. A request is tried three times at most, as the source says, so
-- the number of attempts is the fuel of `retry`.
--
-- What is not modelled: pages, mail, logs, metrics and audit records, since no property depends on
-- them; the remaining PIX endpoints (previews and the names in answers), the analyses by a language
-- model, the instalment simulation, the assistant, cards and the health score; floating-point
-- projections; of the constraints of the database, those on distinct ids are a named hypothesis
-- (`UniqueIds`), those on the columns of a QR payment are tested where the payment is inserted,
-- those on the columns of a charge where the charge is issued (`can_insert`), and that on the key
-- of an incoming payment where its row is inserted (`key_taken`).
pub mod Prelude
pub mod Money
pub mod Fees
pub mod Documents
pub mod Antifraud
pub mod Boleto
pub mod Store
pub mod Pix
pub mod Subscription
pub mod Breaker
pub mod Emv
pub mod Http
pub mod Charge
pub mod Qrcode
pub mod Auth
pub mod Admin
pub mod Api
pub mod Reconcile
pub mod Gateway
pub mod Consult
