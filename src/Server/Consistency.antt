-- ===== src/Server/Consistency.antt =====
-- What the server's requests do to the tables.
use merch.Base.{String, Bool, Option, none, some, str_eq}
use merch.Base.Int.{pos, leb_ℤ}
use merch.Go.Errors.{
  Error, Result, ok, err, panic, errors_is, user_not_exist, user_exist,
  invalid_username_or_password, item_not_exist, not_enough, dst_user_not_found,
  src_user_and_dst_user_equal,
}
use merch.Postgres.Schema.{Uuid, Bytes}
use merch.Postgres.Session.{Env, World, Action, pool, pure, fail, lift}
use merch.Postgres.Rows.{collect_rows}
use merch.Postgres.Pool.{OthersKeep}
use merch.Postgres.Keeping.{Keeps, Keeps-then, Keeps-if, Keeps-case_of, query_then-Keeps}
use merch.Users.Hashing.{PasswordHasher}
use merch.Users.Getter.{
  exactly_one_user, select_user_by_id, select_user_by_username, get_user, get_user_by_username,
}
use merch.Users.Creator.{create_user}
use merch.Users.Registration.{create_user-Keeps}
use merch.Coins.{get_balance}
use merch.Transfers.Model.{row_to_transfer_with_usernames}
use merch.Transfers.Getter.{select_transfers_by_user_id, get_transfers_by_user_id}
use merch.Transfers.Transferer.{transfer_by_username}
use merch.Transfers.Atomicity.{transfer_by_username-IsConsistent}
use merch.Purchases.Model.{row_to_item_count}
use merch.Purchases.Getter.{select_item_counts, get_item_counts_by_user_id}
use merch.Purchases.Purchaser.{purchase_by_name}
use merch.Purchases.Atomicity.{purchase_by_name-IsConsistent}
use merch.Ledger.Invariant.{IsConsistent}
use merch.Auth.Claims.{Libraries}
use merch.Auth.Password.{data_of, check_password, create_or_get, register, authenticate_password}
use merch.Server.Responses.{
  AuthRequest, SendCoinRequest, Response, PostApiAuthResponse, GetApiBuyItemResponse,
  PostApiSendCoinResponse,
}
use merch.Server.Handlers.{
  is_empty, respond_token, post_api_auth, buy_error, get_api_buy_item, send_error,
  post_api_send_coin,
}
use merch.Server.Info.{get_api_info}
use merch.Server.Middleware.{Decoded}
use merch.Server.Router.{visited}

module _ (collate : String → String → Bool) (env : Env) (ph : PasswordHasher) (lib : Libraries)
    (verification_key signature_key : Bytes) (bind_item : String → Decoded String)
    (keep : OthersKeep IsConsistent env) where
  get_user_by_username-Keeps :
      (name : String) → Keeps IsConsistent (get_user_by_username env pool name)
  unfolding get_user_by_username select_user_by_username
  get_user_by_username-Keeps name =
      query_then-Keeps IsConsistent env (select_user_by_username name) exactly_one_user keep
        (λ _ _ c. c)

  get_balance-Keeps : (id : Uuid) → Keeps IsConsistent (get_balance env pool id)
  unfolding get_balance get_user select_user_by_id
  get_balance-Keeps id =
      Keeps-then IsConsistent (get_user env pool id) (λ u. pure u.balance)
        (query_then-Keeps IsConsistent env (select_user_by_id id) exactly_one_user keep
          (λ _ _ c. c))
        (λ _ _ c. c)

  get_transfers-Keeps : (id : Uuid) → Keeps IsConsistent (get_transfers_by_user_id env pool id)
  unfolding get_transfers_by_user_id select_transfers_by_user_id
  get_transfers-Keeps id =
      query_then-Keeps IsConsistent env (select_transfers_by_user_id id)
        (collect_rows row_to_transfer_with_usernames) keep (λ _ _ c. c)

  get_item_counts-Keeps :
      (id : Uuid) → Keeps IsConsistent (get_item_counts_by_user_id collate env pool id)
  unfolding get_item_counts_by_user_id select_item_counts
  get_item_counts-Keeps id =
      query_then-Keeps IsConsistent env (select_item_counts collate id)
        (collect_rows row_to_item_count) keep (λ _ _ c. c)

  create_or_get-Keeps :
      (name : String) (password : Bytes) → Keeps IsConsistent (create_or_get env ph name password)
  unfolding create_or_get
  create_or_get-Keeps name password =
      Keeps-case_of IsConsistent (create_user env ph pool name password) pure _
        (create_user-Keeps env ph name password keep) (λ _ _ c. c)
        (λ e.
          Keeps-if IsConsistent (errors_is e user_exist) (get_user_by_username env pool name)
            (fail e) (get_user_by_username-Keeps name) (λ _ c. c))

  register-Keeps :
      (name : String) (password : Bytes) → Keeps IsConsistent (register env ph name password)
  unfolding register
  register-Keeps name password =
      Keeps-then IsConsistent (create_or_get env ph name password) (λ u. pure (data_of u))
        (create_or_get-Keeps name password) (λ _ _ c. c)

  -- A login, which may register the user.
  pub authenticate_password-Keeps :
      (name : String) (password : Bytes)
      → Keeps IsConsistent (authenticate_password env ph name password)
  unfolding authenticate_password check_password
  authenticate_password-Keeps name password =
      Keeps-case_of IsConsistent (get_user_by_username env pool name)
        (check_password env ph password) _ (get_user_by_username-Keeps name)
        (λ u. Keeps-then IsConsistent (lift _) (λ _. pure (data_of u)) (λ _ c. c) (λ _ _ c. c))
        (λ e.
          Keeps-if IsConsistent (errors_is e user_not_exist) (register env ph name password)
            (fail e) (register-Keeps name password) (λ _ c. c))

  pub post_api_auth-Keeps :
      (body : AuthRequest) → Keeps IsConsistent (post_api_auth env ph lib signature_key body)
  unfolding post_api_auth respond_token
  post_api_auth-Keeps body =
      Keeps-if IsConsistent (str_eq body.username "") (pure _) _ (λ _ c. c)
        (Keeps-if IsConsistent (is_empty body.password) (pure _) _ (λ _ c. c)
          (Keeps-case_of IsConsistent (authenticate_password env ph body.username body.password)
            (respond_token env ph lib signature_key) _
            (authenticate_password-Keeps body.username body.password)
            (λ d.
              Keeps-then IsConsistent (λ v. lift _ v) (λ t. pure (PostApiAuthResponse.ok200 t))
                (λ _ c. c) (λ _ _ c. c))
            (λ e.
              Keeps-if IsConsistent (errors_is e invalid_username_or_password) (pure _) (fail e)
                (λ _ c. c) (λ _ c. c))))

  buy_error-Keeps : (e : Error) → Keeps IsConsistent (buy_error env e)
  unfolding buy_error
  buy_error-Keeps e =
      Keeps-if IsConsistent (errors_is e item_not_exist) (pure _) _ (λ _ c. c)
        (Keeps-if IsConsistent (errors_is e not_enough) (pure _) (fail e) (λ _ c. c) (λ _ c. c))

  pub get_api_buy_item-Keeps :
      (context : Option Uuid) (item : String)
      → Keeps IsConsistent (get_api_buy_item env context item)
  unfolding get_api_buy_item
  get_api_buy_item-Keeps none item = λ _ c. c
  get_api_buy_item-Keeps (some id) item =
      Keeps-if IsConsistent (str_eq item "") (pure _) _ (λ _ c. c)
        (Keeps-case_of IsConsistent (purchase_by_name env item id)
          (λ _. pure GetApiBuyItemResponse.ok200) (buy_error env)
          (λ v c. purchase_by_name-IsConsistent env item id v keep c) (λ _ _ c. c) buy_error-Keeps)

  send_error-Keeps : (e : Error) → Keeps IsConsistent (send_error env e)
  unfolding send_error
  send_error-Keeps e =
      Keeps-if IsConsistent (errors_is e dst_user_not_found) (pure _) _ (λ _ c. c)
        (Keeps-if IsConsistent (errors_is e src_user_and_dst_user_equal) (pure _) _ (λ _ c. c)
          (Keeps-if IsConsistent (errors_is e not_enough) (pure _) (fail e) (λ _ c. c) (λ _ c. c)))

  pub post_api_send_coin-Keeps :
      (context : Option Uuid) (body : SendCoinRequest)
      → Keeps IsConsistent (post_api_send_coin env context body)
  unfolding post_api_send_coin
  post_api_send_coin-Keeps none body = λ _ c. c
  post_api_send_coin-Keeps (some id) body =
      Keeps-if IsConsistent (str_eq body.to_user "") (pure _) _ (λ _ c. c)
        (Keeps-if IsConsistent (leb_ℤ body.amount (pos 0)) (pure _) _ (λ _ c. c)
          (Keeps-case_of IsConsistent (transfer_by_username env body.to_user id body.amount)
            (λ _. pure PostApiSendCoinResponse.ok200) (send_error env)
            (λ v c. transfer_by_username-IsConsistent env body.to_user id body.amount v keep c)
            (λ _ _ c. c) send_error-Keeps))

  pub get_api_info-Keeps :
      (context : Option Uuid) → Keeps IsConsistent (get_api_info collate env context)
  unfolding get_api_info
  get_api_info-Keeps none = λ _ c. c
  get_api_info-Keeps (some id) =
      Keeps-then IsConsistent (get_item_counts_by_user_id collate env pool id) _
        (get_item_counts-Keeps id)
        (λ items.
          Keeps-then IsConsistent (get_transfers_by_user_id env pool id) _ (get_transfers-Keeps id)
            (λ transfers.
              Keeps-then IsConsistent (get_balance env pool id) _ (get_balance-Keeps id)
                (λ _ _ c. c)))

  pub visited-Keeps :
      {A : Type 0} (visit : A → Response) (m : Action A)
      → Keeps IsConsistent m
      → Keeps IsConsistent (λ w. visited visit (m w))
  unfolding visited
  visited-Keeps {A} visit m h w c = go (m w) (h w c)
    where
      go :
          (r : Result A × World) → IsConsistent r.1.tables → IsConsistent (visited visit r).1.tables
      go (ok a, v) k = k
      go (err e, v) k = k
      go (panic, v) k = k
