-- ===== src/Tests.antt =====
-- Examples of the theorems on concrete tables and providers.
mod Sample
mod Retry
mod Outbox
mod Worker
mod Dispatch
mod Formatting
mod XAdapter
mod ThreadsAdapter
mod Posts
mod Oauth
mod Kakao
mod Jwt
mod Analytics
mod Pages
mod Alerts
