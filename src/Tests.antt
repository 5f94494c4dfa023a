-- ===== src/Tests.antt =====
-- Tests on concrete inputs: a corpus of two passages, a model that answers, and the theorems
-- applied to them.
mod Sample
mod Answers
mod Quotas
mod Accounts
mod Codec
mod Corpus
mod Chats
mod Erase
mod RateLimits
mod Uploads
mod Sessions
mod Documents
mod Account
mod Config
