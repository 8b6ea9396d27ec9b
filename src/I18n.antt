-- ===== src/I18n.antt =====
-- The texts of the frontend in three languages: frontend/src/i18n/index.tsx, and the dictionaries of
-- frontend/src/i18n/translations.ts.
pub mod Text
pub mod Dict
pub mod English
pub mod French
pub mod Spanish
pub mod Translate
pub mod Template
pub mod Agree
pub mod Complete
pub mod Choice
pub mod Labels
pub mod Filling
pub mod Total
