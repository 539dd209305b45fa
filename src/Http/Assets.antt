-- ===== src/Http/Assets.antt =====
-- The administration pages of app.ts: `serveAdminAsset` over the Static Assets binding, the path that
-- a request is logged under, and the environment that is logged.
use user_service_platform.Prelude.{
  ℕ, zero, suc, Bool, true, false, not, ◌&&◌, ◌||◌, [], ◌∷◌, Option, none, some, leb, ◌==◌,
  Bool-cases, if◌then◌else◌, arith, ◌≡◌, refl, ◌⊎◌, inl, inr,
}
use user_service_platform.Text.{Text, codes, text_eq, starts_with}
use user_service_platform.Http.{not_found, Problem, create_problem}

-- A response of the binding, told apart by its status and its content.
pub record Asset : Type 0 where
  pub status : ℕ
  pub content : Text

-- `entry.ok || entry.status === 304`.
abbrev pub is_entry : Asset → Bool
is_entry asset = (leb 200 asset.status && leb asset.status 299) || asset.status == 304

pub data Page : Type 0 where
  streamed : Asset → Page
  missing : Problem → Page

abbrev pub missing_page : Text → Page
missing_page pathname =
    missing (create_problem 404 not_found (codes "Not Found") none (some pathname))

-- `path.slice(n)`.
unfoldable pub slice : ℕ → Text → Text
slice zero s = s
slice (suc n) [] = []
slice (suc n) (_ ∷ s) = slice n s

-- The path below the mount, as the binding knows it.
unfoldable pub asset_path : Text → Text
unfolding slice
asset_path path =
    if text_eq path (codes "/admin") || text_eq path (codes "/admin/")
    then codes "/index.html"
    else slice 6 path

abbrev pub is_hashed : Text → Bool
is_hashed path = starts_with path (codes "/assets/")

-- `serveAdminAsset`, of the binding (which may be absent) and of the path of the request's URL.
unfoldable pub serve_admin_asset : Option (Text → Asset) → Text → Text → Page
unfolding asset_path
serve_admin_asset none path pathname = missing_page pathname
serve_admin_asset (some fetch) path pathname =
    let hit = fetch (asset_path path) in
    let entry = fetch (codes "/index.html") in
    if not (hit.status == 404)
    then streamed hit
    else if is_hashed (asset_path path)
    then streamed hit
    else if is_entry entry
    then streamed entry
    else missing_page pathname

-- `loggedPath`, of the matched pattern, if there is one, and the path.
unfoldable pub logged_path : Option Text → Text → Text
logged_path (some (c ∷ pattern)) pathname = c ∷ pattern
logged_path (some []) pathname = pathname
logged_path none pathname = pathname

-- A page that the binding gave is the asset that was asked for, or else the entry, in its place where
-- the asset is missing and is not a hashed one; the entry is never passed off as a missing one.
abbrev pub IsPageOf : (Text → Asset) → Text → Text → Page → Type 0
IsPageOf fetch path pathname (streamed asset) =
    (asset ≡ fetch (asset_path path))
    ⊎ ((asset ≡ fetch (codes "/index.html"))
        × ((fetch (asset_path path)).status ≡ 404)
        × (is_hashed (asset_path path) ≡ false)
        × (is_entry asset ≡ true))
IsPageOf fetch path pathname (missing details) =
    ((fetch (asset_path path)).status ≡ 404)
    × (is_hashed (asset_path path) ≡ false)
    × (is_entry (fetch (codes "/index.html")) ≡ false)
    × (details.status ≡ 404)
    × (details.instance_path ≡ some pathname)

is_404 : (n : ℕ) → not (n == 404) ≡ false → n ≡ 404
is_404 n h = ground arith

-- With the binding present, a page of the administration is the asset that was asked for, or the
-- entry where that asset is missing and no hashed one, or else a problem with status 404, and only
-- where both are missing.
pub serve_admin_asset-IsPageOf :
    (fetch : Text → Asset) (path pathname : Text)
    → IsPageOf fetch path pathname (serve_admin_asset (some fetch) path pathname)
unfolding serve_admin_asset create_problem
serve_admin_asset-IsPageOf fetch path pathname =
    elim (Bool-cases (not ((fetch (asset_path path)).status == 404))) [
      | inl e ↦ rw e (inl refl)
      | inr m ↦ rw m (elim (Bool-cases (is_hashed (asset_path path))) [
        | inl e ↦ rw e (inl refl)
        | inr n ↦ rw n (elim (Bool-cases (is_entry (fetch (codes "/index.html")))) [
          | inl e ↦ rw e (inr (refl, is_404 _ m, n, e))
          | inr e ↦ rw e (is_404 _ m, n, e, refl, refl)
        ])
      ])
    ]
