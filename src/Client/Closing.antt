-- ===== src/Client/Closing.antt =====
-- What the end of a client closes and frees.
use http_proxy.Base.{
  ℕ, suc, ◌+◌, ◌≡◌, ◌≢◌, ◌∙◌, refl, ap, Bool, true, false, Option, none, some, List, [], ◌∷◌, ◌++◌,
  ◌==◌, if◌then◌else◌, arith,
}
use http_proxy.Client.{
  Client, Storage, pre_req_mem, post_req_mem, pre_res_mem, post_res_mem, pre_transf_mem, Call,
  set_interest, unregister, register, add_transfered_bytes, new_connection, close_connection, close,
  free, resolve, connect, closing, drop_origin_calls, unregister_origin_calls,
  client_free_resources_calls, client_close_calls, unregister_client, unregister_client_calls,
  client_terminate_calls,
}

abbrev index : Storage → ℕ
index pre_req_mem = 0
index post_req_mem = 1
index pre_res_mem = 2
index post_res_mem = 3
index pre_transf_mem = 4

-- The four storages of the request's and the response's buffers.
abbrev pub parsed : Storage → Bool
parsed pre_req_mem = true
parsed post_req_mem = true
parsed pre_res_mem = true
parsed post_res_mem = true
parsed pre_transf_mem = false

abbrev is_free : Storage → Call → Bool
is_free m (free m') = index m == index m'
is_free m (set_interest fd i) = false
is_free m (unregister fd) = false
is_free m (register fd i) = false
is_free m (add_transfered_bytes n) = false
is_free m new_connection = false
is_free m close_connection = false
is_free m (close fd) = false
is_free m resolve = false
is_free m (connect fd) = false

abbrev is_close : ℕ → Call → Bool
is_close fd (close fd') = fd == fd'
is_close fd (free m) = false
is_close fd (set_interest k i) = false
is_close fd (unregister k) = false
is_close fd (register k i) = false
is_close fd (add_transfered_bytes n) = false
is_close fd new_connection = false
is_close fd close_connection = false
is_close fd resolve = false
is_close fd (connect k) = false

abbrev pub count : (Call → Bool) → List Call → ℕ
count p [] = 0
count p (x ∷ xs) = if p x then suc (count p xs) else count p xs

-- How often some storage is freed, and a descriptor closed.
abbrev pub frees : Storage → List Call → ℕ
frees m calls = count (is_free m) calls

abbrev pub closes : ℕ → List Call → ℕ
closes fd calls = count (is_close fd) calls

count-append : (p : Call → Bool) (xs ys : List Call) → count p (xs ++ ys) ≡ count p xs + count p ys
count-append p [] ys = omega arith
count-append p (x ∷ xs) ys = ground (arith, count-append p xs ys)

-- The calls of a client that is registered, with an origin that is registered too.
abbrev ending : ℕ → ℕ → List Call
ending fd origin =
    unregister (some fd)
    ∷ close_connection
    ∷ close origin
    ∷ unregister (some origin)
    ∷ close origin
    ∷ close fd
    ∷ free pre_req_mem
    ∷ free post_req_mem
    ∷ free pre_res_mem
    ∷ free post_res_mem
    ∷ []

ending-eq :
    (c : Client) (fd origin : ℕ)
    → c.client_fd ≡ some fd
    → c.origin_fd ≡ some origin
    → c.client_registered ≡ true
    → c.origin_registered ≡ true
    → unregister_client_calls c ≡ ending fd origin
unfolding unregister_client_calls client_free_resources_calls
ending-eq c fd origin e f g h = rw (e, g, f, h) refl

frees-ending :
    (m : Storage) (fd origin : ℕ) → frees m (ending fd origin) ≡ (if parsed m then 1 else 0)
frees-ending pre_req_mem fd origin = refl
frees-ending post_req_mem fd origin = refl
frees-ending pre_res_mem fd origin = refl
frees-ending post_res_mem fd origin = refl
frees-ending pre_transf_mem fd origin = refl

-- When a registered client whose origin is registered is taken out of the selector, each storage of the
-- request's and the response's two buffers is freed once, and that of the transformation's buffer is
-- not freed; the client's descriptor is closed once, but the origin's is closed twice.
pub unregister_client_calls-closes :
    (c : Client) (fd origin : ℕ)
    → c.client_fd ≡ some fd
    → c.origin_fd ≡ some origin
    → c.client_registered ≡ true
    → c.origin_registered ≡ true
    → fd ≢ origin
    → ((m : Storage) → frees m (unregister_client_calls c) ≡ (if parsed m then 1 else 0))
      × (closes fd (unregister_client_calls c) ≡ 1)
      × (closes origin (unregister_client_calls c) ≡ 2)
unregister_client_calls-closes c fd origin e f g h ne =
    rw (ending-eq c fd origin e f g h) (λ m. frees-ending m fd origin, ground arith, ground arith)

frees-closing : (m : Storage) (fd : Option ℕ) → frees m (closing fd) ≡ 0
frees-closing m none = refl
frees-closing m (some fd) = refl

frees-unregister_origin : (m : Storage) (c : Client) → frees m (unregister_origin_calls c) ≡ 0
frees-unregister_origin m c = ground (arith, frees-closing m c.origin_fd)

frees-drop_origin :
    (m : Storage) (fd : Option ℕ) (c : Client) → frees m (drop_origin_calls fd c) ≡ 0
frees-drop_origin m none c = refl
frees-drop_origin m (some fd) c = frees-unregister_origin m c

frees-all :
    (m : Storage)
    → frees m (free pre_req_mem ∷ free post_req_mem ∷ free pre_res_mem ∷ free post_res_mem ∷ [])
      ≡ (if parsed m then 1 else 0)
frees-all pre_req_mem = refl
frees-all post_req_mem = refl
frees-all pre_res_mem = refl
frees-all post_res_mem = refl
frees-all pre_transf_mem = refl

frees-client_free_resources_calls :
    (m : Storage) (c : Client)
    → frees m (client_free_resources_calls c) ≡ (if parsed m then 1 else 0)
unfolding client_free_resources_calls
frees-client_free_resources_calls m c =
    simp (count-append, frees-drop_origin, frees-closing, frees-all) (omega arith)

frees-unregister_client_calls :
    (m : Storage) (c : Client)
    → c.client_registered ≡ true
    → frees m (unregister_client_calls c) ≡ (if parsed m then 1 else 0)
unfolding unregister_client_calls
frees-unregister_client_calls m c h =
    ap (λ b. frees m (if b then client_close_calls c else [])) h
    ∙ frees-client_free_resources_calls m c

-- For a client that is registered, `client_terminate` frees each storage of the request's and the
-- response's two buffers twice, and that of the transformation's buffer not at all.
pub client_terminate_calls-frees_twice :
    (m : Storage) (c : Client)
    → c.client_registered ≡ true
    → frees m (client_terminate_calls c) ≡ (if parsed m then 2 else 0)
unfolding client_terminate_calls
client_terminate_calls-frees_twice m c h =
    let once = frees-unregister_client_calls m c h in
    let again = frees-client_free_resources_calls m (unregister_client c) in
    ground (
      arith,
      count-append (is_free m) (closing c.client_fd)
          (unregister_client_calls c ++ client_free_resources_calls (unregister_client c)),
      count-append (is_free m) (unregister_client_calls c)
          (client_free_resources_calls (unregister_client c)),
      frees-closing m c.client_fd,
    )
