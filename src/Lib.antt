-- ===== src/Lib.antt =====
-- Mullet shows dashboards of widgets on kiosk displays. An admin arranges cards on the screens of
-- a display (the designer, web/src/admin/pages/DesignerPage.tsx), and a kiosk polls the display's
-- layout and renders it (web/src/display). Cards name UI plugins (web/src/plugins), which read rows
-- of data shapes; a theme (web/src/shared/themes) cascades from the display over its screens to
-- the cards. The model is of this TypeScript code; of the Go server it has only what an accepted
-- update stores and what a client's poll answers, since the requests mean nothing without that.
--
-- Files:
-- Base: lists, texts, tests and numbers. A text is the list of its UTF-16 code units (`Text`): splitting,
--   trimming and joining are those of JavaScript strings. Numbers of the program that are whole and
--   not negative are ℕ. Floating point numbers are a type parameter, with the tests that the code
--   makes on them (Theme/Json, `Floats`).
--   Sorts is `Array.prototype.sort`, Patterns the parts of the regular expressions that are modelled.
-- Theme: shared/themes. Tokens (tokens.ts, and the spreads `{ ...theme, ...override }`), Backgrounds
--   (lists of image URLs), Fonts (fontOptions.ts), Json (parsed values), Validate (validateTokens.ts),
--   Presets (presets.ts).
-- Plugins: shared/types/plugin.ts (Contract) and plugins/registry.ts with the objects of its
--   plugins, without their React components (Registry).
-- Display: Layout (useDisplayLayout.ts), ShapeData (useShapeData.ts), Night, Rotation and App
--   (DisplayApp.tsx, BottomBar.tsx, ConnectOverlay.tsx), Grid (ScreenGrid.tsx), Card
--   (DisplayCard.tsx), Slides (BackgroundLayer.tsx and the slides of PhotoAlbumWidget.tsx).
-- Designer: Presets, Placement, Positions, SaveStatus, Screens and Settings are parts of
--   DesignerPage.tsx; Server is the part of internal/api/display_handlers.go and
--   internal/db/displays.go that stores an update. Saves has the page's loading and
--   actions that run under its save status, Discovery the options of dynamic fields.
-- Widgets: what plugins/task-list (Tasks), plugins/home-status (Home) and plugins/shared/cardStyle.ts
--   (Style) show of their rows, over a shared grouping and stable sort (Groups), the colours of
--   plugins/shared/idColor.ts (Hashes), the quote of a day (Quotes, plugins/quote-of-the-day), icons and
--   forecasts (Weather), and what the cards of servers, packages and media choose (Status).
-- Admin: Session (admin/auth), Shell (AdminApp.tsx), SignIn (LoginPage.tsx), Accounts
--   (SetupWizard.tsx, ResetPasswordPage.tsx, ForgotPasswordPage.tsx), Displays with its Screens
--   (DisplaysPage.tsx), Clients (ClientsPage.tsx, with internal/api/client_handlers.go; its
--   Offline is the page for a screen with no server, with JSON as parameters), Manifest
--   (ManifestForm.tsx), Plugins (PluginsPage.tsx), Settings with TwoFactor, Secrets and Webhooks
--   (SettingsPage.tsx, with internal/db/smtp_settings.go and webhook_settings.go), Gradient
--   (GradientStopEditor.tsx), ThemeEditor (ThemeEditorPage.tsx, ThemeTokenFields.tsx), Colors
--   (ThemeTokenFields.tsx).
-- Register: register/RegisterPage.tsx and shared/cookies.ts: Pairing has the pairing codes, Page the
--   state of the page with the cookies. The status of a client that the admin sets in Admin/Clients
--   reaches this page through the answer to its poll.
-- Calendar: the days of plugins/shared/dateMath.ts and the widgets that show rows by day. Dates has the
--   local calendar of `Date` as numbers of days from 1 January 1970 on (earlier days are not modelled),
--   Decimal and Keys the texts of days, Between `daysBetween` and the countdown, Events the lists of
--   the agenda and the week view, Month the grid and its cells, Legend and Views their colours and
--   rows, Birthdays, Meals, and Format the custom dates of the clock (Matches
--   and Longest what they are written as). The parser of dates, the zone
--   and the comparison by the locale are parameters.
-- Each folder's Tests runs the definitions at concrete inputs.
--
-- A React component is modelled as a state and the events that change it: the answers to its polls,
-- the ticks of its intervals, the edits that reach it. What it renders is a function of the state.
-- Effects that are cleaned up turn later answers into `cancelled` or `stale` ones. Each function
-- is structural in its list of events or of rows, but for two that run on fuel: the decimal text of
-- a number (fuel above the number) and the replacement of date tokens (above the pattern's length).
--
-- A request is modelled by what it settles with: an answer that is ok, one that is not with its
-- text, or an exception. Requests that overlap are events in any order, each with the data it was
-- sent with.
--
-- Not modelled: the drawings of the widgets and the top bar, which format by the browser's locale, and
-- the phase of the moon; the dashboard and the list of themes; parsing by regular expressions but
-- for the offline page, gradients, date tokens and the keyword of a meal (so no rgba colours), and
-- the conversions of hue; the server but for the above; fractions in the number fields and in the
-- positions of gradient stops.
pub mod Base
pub mod Theme
pub mod Plugins
pub mod Display
pub mod Designer
pub mod Widgets
pub mod Admin
pub mod Register
pub mod Calendar
