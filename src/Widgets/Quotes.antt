-- ===== src/Widgets/Quotes.antt =====
-- plugins/quote-of-the-day: the quote of a day, by a hash in unsigned 32-bit numbers of its date.
-- The decimal text of a number is a parameter.
use mullet.Base.{
  ℕ, ◌%◌, ◌<◌, Text, String, codes, Option, some, List, [], ◌∷◌, length, get_elem?, get_elem?_total,
  join, split, split-join, Lacks, ◌≡◌, refl, arith,
}
use mullet.Widgets.Hashes.{unsigned_from}

pub record Quote : Type 0 where
  pub text : Text
  pub author : Text

abbrev quote : String → String → Quote
quote text author = record { text = codes text; author = codes author }

unfoldable pub quotes : List Quote
quotes =
    quote "The only way to do great work is to love what you do." "Steve Jobs"
    ∷ quote "In the middle of difficulty lies opportunity." "Albert Einstein"
    ∷ quote "It is never too late to be what you might have been." "George Eliot"
    ∷ quote "The best time to plant a tree was 20 years ago. The second best time is now." "Proverb"
    ∷ quote "Whether you think you can or you think you can’t, you’re right." "Henry Ford"
    ∷ quote "The journey of a thousand miles begins with a single step." "Lao Tzu"
    ∷ quote "Simplicity is the ultimate sophistication." "Leonardo da Vinci"
    ∷ quote "What we think, we become." "Buddha"
    ∷ quote "The only limit to our realization of tomorrow is our doubts of today."
        "Franklin D. Roosevelt"
    ∷ quote
        "Do not go where the path may lead; go instead where there is no path and leave a trail."
        "Ralph Waldo Emerson"
    ∷ quote "A room without books is like a body without a soul." "Marcus Tullius Cicero"
    ∷ quote "Well done is better than well said." "Benjamin Franklin"
    ∷ quote "Life is what happens when you’re busy making other plans." "John Lennon"
    ∷ quote "The unexamined life is not worth living." "Socrates"
    ∷ quote "Out of clutter, find simplicity." "Albert Einstein"
    ∷ quote "He who has a why to live can bear almost any how." "Friedrich Nietzsche"
    ∷ quote
        "To be yourself in a world that is constantly trying to make you something else is the greatest accomplishment."
        "Ralph Waldo Emerson"
    ∷ quote "Yesterday is history, tomorrow is a mystery, today is a gift." "Proverb"
    ∷ quote "It does not matter how slowly you go as long as you do not stop." "Confucius"
    ∷ quote "Happiness is not something ready made. It comes from your own actions." "Dalai Lama"
    ∷ quote "The way to get started is to quit talking and begin doing." "Walt Disney"
    ∷ quote "Believe you can and you’re halfway there." "Theodore Roosevelt"
    ∷ quote "Turn your wounds into wisdom." "Oprah Winfrey"
    ∷ quote "Keep your face always toward the sunshine, and shadows will fall behind you."
        "Walt Whitman"
    ∷ quote
        "Twenty years from now you will be more disappointed by the things you didn’t do than by the ones you did do."
        "Mark Twain"
    ∷ quote "Not all those who wander are lost." "J.R.R. Tolkien"
    ∷ quote "The best way to predict the future is to create it." "Abraham Lincoln"
    ∷ quote "Little by little, one travels far." "Proverb"
    ∷ quote "Difficulties strengthen the mind, as labor does the body." "Seneca"
    ∷ quote "A calm sea never made a skilled sailor." "Proverb"
    ∷ []

quote_index : (n l : ℕ) → l ≡ 30 → n % l < l
quote_index n l e = rw e (omega arith)

length-quotes : length quotes ≡ 30
unfolding quotes
length-quotes = refl

module _ (decimal : ℕ → Text) where
  -- `getMonth()` counts from 0.
  unfoldable pub day_key : ℕ → ℕ → ℕ → Text
  day_key year month day = join 45 (decimal year ∷ decimal month ∷ decimal day ∷ [])

  -- none would be `undefined`.
  unfoldable pub quote_for_day : ℕ → ℕ → ℕ → Option Quote
  quote_for_day year month day =
      get_elem? quotes (unsigned_from 0 (day_key year month day) % length quotes)

  -- Every day has a quote.
  pub quote_for_day-found :
      (year month day : ℕ) → (q : Quote) × (quote_for_day year month day ≡ some q)
  unfolding quote_for_day
  quote_for_day-found year month day =
      get_elem?_total quotes (unsigned_from 0 (day_key year month day) % length quotes)
        (quote_index (unsigned_from 0 (day_key year month day)) (length quotes) length-quotes)

  -- Where decimal texts have no dash, the parts of a key are those of its date: days that differ
  -- have different keys.
  pub day_key_parts :
      (year month day : ℕ)
      → ((n : ℕ) → Lacks 45 (decimal n))
      → split 45 (day_key year month day) ≡ decimal year ∷ decimal month ∷ decimal day ∷ []
  unfolding day_key
  day_key_parts year month day lacks =
      split-join 45 (decimal year) (decimal month ∷ decimal day ∷ [])
        (lacks year, (lacks month, (lacks day, tt)))
